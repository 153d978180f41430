-- ===== src/Collectors/Services/Ordered.antt =====
-- internal/collectors/services.go: the service checks can be ordered.
use savk.Base.{
  ◌≡◌, ◌↔◌, refl, ap, Bool, true, false, List, [], ◌∷◌, ◌++◌, map, reverse, every, arith,
  if◌then◌else◌,
}
use savk.Text.{Text, text_eq, codes}
use savk.Text.Order.{contains}
use savk.Text.Ops.{has_prefix}
use savk.Text.Distinct.{IsDistinct}
use savk.Contract.Schema.{ServiceSpec, keys}
use savk.Engine.{Check}
use savk.Engine.Closed.{names}
use savk.Engine.Ordered.{IsOrdered, is_ranked}
use savk.Collectors.Naming.{Naming, ident, differ}
use savk.Collectors.Ranks.{check_rank, check_rank-ident, rank_from_end}
use savk.Collectors.Build.Rooted.{Rooted, build-IsOrdered}
use savk.Collectors.Build.Named.{
  Family, has_kind, are_distinct, contains-build-true, contains-build-false, every-build,
  every-build-keys,
}
use savk.Collectors.Services.{
  ServiceHost, ServiceKind, state, restart, run_as_user, run_as_group, capabilities, service_id,
  service_kind_text, service_kinds, service_prerequisites,
}
use savk.Collectors.Services.Run.{service_checks_of, build_service_checks}

unfoldable pub same_service_kind : ServiceKind → ServiceKind → Bool
same_service_kind state state = true
same_service_kind restart restart = true
same_service_kind run_as_user run_as_user = true
same_service_kind run_as_group run_as_group = true
same_service_kind capabilities capabilities = true
same_service_kind _ _ = false

pub same_service_kind_iff : (k l : ServiceKind) → (same_service_kind k l ≡ true) ↔ (k ≡ l)
unfolding same_service_kind
same_service_kind_iff k l = ground arith

pub service_kinds_apart :
    (k l : ServiceKind)
    → same_service_kind k l ≡ false
    → differ
        (reverse (codes "." ++ service_kind_text k))
        (reverse (codes "." ++ service_kind_text l))
      ≡ true
unfolding same_service_kind service_kind_text codes differ
service_kinds_apart k l h = ground arith

abbrev pub service_naming : Naming ServiceKind
service_naming = record {
  prefix = codes "service.";
  suffix = λ k. codes "." ++ service_kind_text k;
  same = same_service_kind;
  same_iff = same_service_kind_iff;
  apart = service_kinds_apart;
}

pub check_rank-service_id :
    (name : Text) (k : ServiceKind)
    → check_rank (service_id name k) ≡ (if same_service_kind k state then 1 else 2)
unfolding service_id ident same_service_kind rank_from_end service_kind_text codes has_prefix
check_rank-service_id name state = check_rank-ident service_naming name state
check_rank-service_id name restart = check_rank-ident service_naming name restart
check_rank-service_id name run_as_user = check_rank-ident service_naming name run_as_user
check_rank-service_id name run_as_group = check_rank-ident service_naming name run_as_group
check_rank-service_id name capabilities = check_rank-ident service_naming name capabilities

module _ {W : Type 0} (host : ServiceHost W) (state_only : Bool) where
  abbrev pub service_block : Text → ServiceSpec → List (Check W)
  service_block name spec = service_checks_of host name spec (service_kinds state_only spec)

  names-service_checks_of :
      (name : Text) (spec : ServiceSpec) (ks : List ServiceKind)
      → names (service_checks_of host name spec ks) ≡ map (ident service_naming name) ks
  unfolding service_checks_of ident service_id
  names-service_checks_of name spec [] = refl
  names-service_checks_of name spec (k ∷ ks) =
      ap (◌∷◌ (service_id name k)) (names-service_checks_of name spec ks)

  service_kinds_distinct :
      (spec : ServiceSpec) → are_distinct same_service_kind (service_kinds state_only spec) ≡ true
  unfolding are_distinct has_kind same_service_kind service_kinds
  service_kinds_distinct spec = ground arith

  service_family : Family service_naming service_block
  service_family = record {
    kinds = service_kinds state_only;
    names_block = λ name spec. names-service_checks_of name spec (service_kinds state_only spec);
    kinds_distinct = service_kinds_distinct;
  }

  checks_of-ranked :
      (known : List Text) (name : Text) (spec : ServiceSpec) (ks : List ServiceKind)
      → contains (service_id name state) known ≡ true
      → every (is_ranked known check_rank) (service_checks_of host name spec ks) ≡ true
  unfolding service_checks_of is_ranked service_prerequisites same_service_kind
  checks_of-ranked known name spec [] h = refl
  checks_of-ranked known name spec (k ∷ ks) h = ground (
    arith,
    check_rank-service_id name state,
    check_rank-service_id name k,
    checks_of-ranked known name spec ks h,
  )

  service-Rooted : Rooted service_naming service_block check_rank
  unfolding service_family ident has_kind same_service_kind service_kinds service_id codes text_eq
  service-Rooted = record {
    family = service_family;
    root = state;
    rooted = λ spec. refl;
    named = λ name k. refl;
    ranked =
        λ known name spec h. checks_of-ranked known name spec (service_kinds state_only spec) h;
  }

  -- A service has its state check.
  pub contains-build_service_checks :
      (name : Text) (services : List (Text × ServiceSpec))
      → contains name (keys services) ≡ true
      → contains (service_id name state) (names (build_service_checks host state_only services))
        ≡ true
  unfolding service_id ident build_service_checks has_kind same_service_kind service_kinds
      service_family
  contains-build_service_checks name services h =
      contains-build-true service_naming service_block service_family name state services
        (λ spec. refl) h

  -- No other service has.
  pub contains-build_service_checks-false :
      (name : Text) (k : ServiceKind) (services : List (Text × ServiceSpec))
      → contains name (keys services) ≡ false
      → contains (service_id name k) (names (build_service_checks host state_only services)) ≡ false
  unfolding service_id ident build_service_checks
  contains-build_service_checks-false name k services h =
      contains-build-false service_naming service_block service_family name k services h

  -- What holds of every ID of a service check.
  pub every-build_service_checks :
      (q : Text → Bool) (services : List (Text × ServiceSpec))
      → ((name : Text) (k : ServiceKind) → q (service_id name k) ≡ true)
      → every q (names (build_service_checks host state_only services)) ≡ true
  unfolding service_id ident build_service_checks
  every-build_service_checks q services h =
      every-build service_naming service_block service_family q services h

  -- What holds of the IDs of all services that are there.
  pub every-build_service_checks-keys :
      (is_key q : Text → Bool) (services : List (Text × ServiceSpec))
      → every is_key (keys services) ≡ true
      → ((name : Text) (k : ServiceKind) → is_key name ≡ true → q (service_id name k) ≡ true)
      → every q (names (build_service_checks host state_only services)) ≡ true
  unfolding service_id ident build_service_checks
  every-build_service_checks-keys is_key q services e h =
      every-build-keys service_naming service_block service_family is_key q services e h

  pub build_service_checks-IsOrdered :
      (services : List (Text × ServiceSpec))
      → IsDistinct (keys services)
      → IsOrdered check_rank (build_service_checks host state_only services)
  unfolding build_service_checks
  build_service_checks-IsOrdered services d =
      build-IsOrdered service_naming service_block check_rank service-Rooted services d
