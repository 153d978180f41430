-- ===== src/CommandLine/Build/Services.antt =====
-- cmd/savk/main.go: the service checks can be ordered behind that of the namespace.
use mathlib.Core.List.{append-nil}
use savk.Base.{
  ◌≡◌, refl, ◌∙◌, ap, Bool, true, false, not, if◌then◌else◌, List, [], ◌∷◌, ◌++◌, reverse, every,
  is_empty, arith,
}
use savk.Text.{Text, text_eq, codes}
use savk.Text.Order.{contains}
use savk.Text.Ops.{has_prefix}
use savk.Text.Distinct.{IsDistinct}
use savk.Contract.Schema.{Contract, ServiceSpec, keys}
use savk.Engine.{Check}
use savk.Engine.Closed.{names}
use savk.Engine.Ordered.{
  IsOrdered, IsOrdered-union, contains-names-append, names-append, every-append,
}
use savk.Collectors.Naming.{text_eq-other, differ}
use savk.Collectors.Ranks.{check_rank, rank_from_end}
use savk.Collectors.Build.{build}
use savk.Collectors.Services.{ServiceKind, state, service_kind_text, service_id}
use savk.Collectors.Services.Run.{build_service_checks}
use savk.Collectors.Services.Ordered.{
  check_rank-service_id, build_service_checks-IsOrdered, every-build_service_checks,
  every-build_service_checks-keys, contains-build_service_checks,
  contains-build_service_checks-false,
}
use savk.CommandLine.Behind.{
  behind_namespace, is_behind, behind_namespace-IsOrdered, every-behind_namespace,
}
use savk.CommandLine.Build.{Hosts, service_namespace_id, service_backed_checks}
use savk.CommandLine.Build.States.{states, states-IsDistinct, every-not_synthesized, has_state}

no_namespace_kind :
    (k : ServiceKind)
    → differ (reverse (codes ".namespace")) (reverse (codes "." ++ service_kind_text k)) ≡ true
unfolding service_kind_text codes differ
no_namespace_kind k = ground arith

other_id : (p : Text) (k : ServiceKind) → text_eq service_namespace_id (service_id p k) ≡ false
unfolding service_namespace_id service_id codes
other_id p k =
    text_eq-other (codes "service.") (codes "__preflight__") p (codes ".namespace")
      (codes "." ++ service_kind_text k) (no_namespace_kind k)

service_id-is_behind :
    (p : Text) (k : ServiceKind) → is_behind service_namespace_id (service_id p k) ≡ true
service_id-is_behind p k = ground (arith, other_id p k, check_rank-service_id p k)

pub every-weaken :
    (q r : Text → Bool) (xs : List Text)
    → ((x : Text) → q x ≡ true → r x ≡ true)
    → every q xs ≡ true
    → every r xs ≡ true
every-weaken q r [] h e = refl
every-weaken q r (x ∷ xs) h e = ground (arith, h x, every-weaken q r xs h)

module _ {W : Type 0} (hosts : Hosts W) (c : Contract) where
  abbrev declared : List (Check W)
  declared = build_service_checks hosts.service_host false c.services

  -- The checks of the synthesized states.
  abbrev synthesized : Bool → List (Check W)
  synthesized include =
      build_service_checks hosts.state_host true (states include c.services c.identity)

  apart_states : every (λ x. not (contains x (names (synthesized true)))) (names declared) ≡ true
  apart_states =
      every-build_service_checks-keys hosts.service_host false
        (λ x. not (contains x (keys (states true c.services c.identity))))
        (λ x. not (contains x (names (synthesized true)))) c.services
        (every-not_synthesized c.services c.identity)
        (λ name k h. ground (
          arith,
          contains-build_service_checks-false hosts.state_host true name k
              (states true c.services c.identity),
        ))

  synthesized-IsOrdered : (include : Bool) → IsOrdered check_rank (synthesized include)
  synthesized-IsOrdered include =
      build_service_checks-IsOrdered hosts.state_host true (states include c.services c.identity)
        (states-IsDistinct include c.services c.identity)

  synthesized_unless_empty :
      (m : List (Text × ServiceSpec))
      → (if is_empty m then [] else build_service_checks hosts.state_host true m)
        ≡ build_service_checks hosts.state_host true m
  unfolding build_service_checks build
  synthesized_unless_empty [] = refl
  synthesized_unless_empty (e ∷ m) = refl

  -- The service checks, for the two domains.
  service_backed_checks-eq :
      (s i : Bool)
      → service_backed_checks hosts c s i
        ≡ (if s then declared else []) ++ (if i then synthesized s else [])
  unfolding service_backed_checks states
  service_backed_checks-eq s i =
      ap (λ m. (if s then declared else []) ++ (if i then m else []))
        (synthesized_unless_empty (states s c.services c.identity))

  chosen-IsOrdered :
      (s i : Bool)
      → IsDistinct (keys c.services)
      → IsOrdered check_rank ((if s then declared else []) ++ (if i then synthesized s else []))
  unfolding contains
  chosen-IsOrdered true true d =
      IsOrdered-union check_rank declared (synthesized true)
        (build_service_checks-IsOrdered hosts.service_host false c.services d)
        (synthesized-IsOrdered true) apart_states
  chosen-IsOrdered true false d =
      rw append-nil (build_service_checks-IsOrdered hosts.service_host false c.services d)
  chosen-IsOrdered false true d = synthesized-IsOrdered false
  chosen-IsOrdered false false d = record { distinct = tt; named = refl; ranked = refl }

  service_backed_checks-IsOrdered :
      (s i : Bool)
      → IsDistinct (keys c.services)
      → IsOrdered check_rank (service_backed_checks hosts c s i)
  service_backed_checks-IsOrdered s i d = rw service_backed_checks-eq (chosen-IsOrdered s i d)

  every-service_backed_checks :
      (q : Text → Bool) (s i : Bool)
      → ((name : Text) (k : ServiceKind) → q (service_id name k) ≡ true)
      → every q (names (service_backed_checks hosts c s i)) ≡ true
  every-service_backed_checks q s i h =
      rw (service_backed_checks-eq, names-append)
        (every-append q (names (if s then declared else []))
            (names (if i then synthesized s else []))
          ∙ ground (
            arith,
            every-build_service_checks hosts.service_host false q c.services h,
            every-build_service_checks hosts.state_host true q (states s c.services c.identity) h,
          ))

  pub contains-service_backed_checks :
      (s : Bool) (name : Text)
      → has_state s c.services c.identity name ≡ true
      → contains (service_id name state) (names (service_backed_checks hosts c s true)) ≡ true
  contains-service_backed_checks s name h = rw service_backed_checks-eq (
      contains-names-append (service_id name state) (if s then declared else []) (synthesized s)
      ∙ ground (
        arith,
        contains-build_service_checks hosts.service_host false name c.services,
        contains-build_service_checks hosts.state_host true name (states s c.services c.identity),
      ))

  abbrev pub guarded : Bool → Bool → List (Check W)
  guarded s i =
      behind_namespace hosts.probe (codes "services") service_namespace_id c.metadata.target
        (service_backed_checks hosts c s i)

  pub guarded-IsOrdered :
      (s i : Bool) → IsDistinct (keys c.services) → IsOrdered check_rank (guarded s i)
  unfolding service_namespace_id codes text_eq check_rank rank_from_end has_prefix
  guarded-IsOrdered s i d =
      behind_namespace-IsOrdered hosts.probe (codes "services") service_namespace_id
        c.metadata.target (service_backed_checks hosts c s i) refl refl
        (every-service_backed_checks (is_behind service_namespace_id) s i service_id-is_behind)
        (service_backed_checks-IsOrdered s i d)

  pub has_prefix-guarded :
      (s i : Bool) → every (λ x. has_prefix x (codes "service.")) (names (guarded s i)) ≡ true
  unfolding service_namespace_id codes has_prefix service_id
  has_prefix-guarded s i =
      let q : Text → Bool = λ x. has_prefix x (codes "service.") in
      every-behind_namespace q hosts.probe (codes "services") service_namespace_id c.metadata.target
        (service_backed_checks hosts c s i) refl
        (every-service_backed_checks q s i (λ name k. refl))
