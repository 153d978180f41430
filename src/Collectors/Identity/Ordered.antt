-- ===== src/Collectors/Identity/Ordered.antt =====
-- internal/collectors/identity.go: the IDs of the identity checks, and what they wait on.
use savk.Base.{
  ◌≡◌, ◌↔◌, refl, ap, Bool, true, false, List, [], ◌∷◌, ◌++◌, map, reverse, every, All, arith,
}
use savk.Text.{Text, codes}
use savk.Text.Order.{contains}
use savk.Text.Ops.{has_prefix}
use savk.Text.Distinct.{IsDistinct}
use savk.Contract.Schema.{IdentitySpec, keys}
use savk.Engine.{Check}
use savk.Engine.Closed.{names}
use savk.Engine.Ordered.{is_ranked}
use savk.Collectors.Naming.{Naming, ident, differ}
use savk.Collectors.Ranks.{check_rank, check_rank-ident, rank_from_end}
use savk.Collectors.Build.Named.{
  Family, has_kind, are_distinct, every-build, build-IsDistinct, build-ranked,
}
use savk.Collectors.Services.{service_id, state}
use savk.Collectors.Services.Ordered.{same_service_kind, check_rank-service_id}
use savk.Collectors.Identity.{
  IdentityHost, IdentityKind, uid, gid, effective, permitted, inheritable, bounding, ambient,
  identity_kind_text, identity_id, identity_prerequisites, identity_kinds,
}
use savk.Collectors.Identity.Run.{identity_checks_of, build_identity_checks}

same_identity_kind : IdentityKind → IdentityKind → Bool
same_identity_kind uid uid = true
same_identity_kind gid gid = true
same_identity_kind effective effective = true
same_identity_kind permitted permitted = true
same_identity_kind inheritable inheritable = true
same_identity_kind bounding bounding = true
same_identity_kind ambient ambient = true
same_identity_kind _ _ = false

same_identity_kind_iff : (k l : IdentityKind) → (same_identity_kind k l ≡ true) ↔ (k ≡ l)
unfolding same_identity_kind
same_identity_kind_iff k l = ground arith

identity_kinds_apart :
    (k l : IdentityKind)
    → same_identity_kind k l ≡ false
    → differ
        (reverse (codes "." ++ identity_kind_text k))
        (reverse (codes "." ++ identity_kind_text l))
      ≡ true
unfolding same_identity_kind identity_kind_text codes differ
identity_kinds_apart k l h = ground arith

abbrev identity_naming : Naming IdentityKind
identity_naming = record {
  prefix = codes "identity.";
  suffix = λ k. codes "." ++ identity_kind_text k;
  same = same_identity_kind;
  same_iff = same_identity_kind_iff;
  apart = identity_kinds_apart;
}

check_rank-identity_id : (label : Text) (k : IdentityKind) → check_rank (identity_id label k) ≡ 2
unfolding identity_id ident rank_from_end identity_kind_text codes has_prefix
check_rank-identity_id label uid = check_rank-ident identity_naming label uid
check_rank-identity_id label gid = check_rank-ident identity_naming label gid
check_rank-identity_id label effective = check_rank-ident identity_naming label effective
check_rank-identity_id label permitted = check_rank-ident identity_naming label permitted
check_rank-identity_id label inheritable = check_rank-ident identity_naming label inheritable
check_rank-identity_id label bounding = check_rank-ident identity_naming label bounding
check_rank-identity_id label ambient = check_rank-ident identity_naming label ambient

identity_kinds_distinct :
    (spec : IdentitySpec) → are_distinct same_identity_kind (identity_kinds spec) ≡ true
unfolding are_distinct has_kind same_identity_kind identity_kinds
identity_kinds_distinct spec = ground arith

module _ {W : Type 0} (host : IdentityHost W) where
  abbrev identity_block : Text → IdentitySpec → List (Check W)
  identity_block label spec = identity_checks_of host label spec (identity_kinds spec)

  names-identity_checks_of :
      (label : Text) (spec : IdentitySpec) (ks : List IdentityKind)
      → names (identity_checks_of host label spec ks) ≡ map (ident identity_naming label) ks
  unfolding identity_checks_of ident identity_id
  names-identity_checks_of label spec [] = refl
  names-identity_checks_of label spec (k ∷ ks) =
      ap (◌∷◌ (identity_id label k)) (names-identity_checks_of label spec ks)

  identity_family : Family identity_naming identity_block
  identity_family = record {
    kinds = identity_kinds;
    names_block = λ label spec. names-identity_checks_of label spec (identity_kinds spec);
    kinds_distinct = identity_kinds_distinct;
  }

  checks_of-ranked :
      (known : List Text) (label : Text) (spec : IdentitySpec) (ks : List IdentityKind)
      → contains (service_id spec.service state) known ≡ true
      → every (is_ranked known check_rank) (identity_checks_of host label spec ks) ≡ true
  unfolding identity_checks_of is_ranked identity_prerequisites same_service_kind
  checks_of-ranked known label spec [] h = refl
  checks_of-ranked known label spec (k ∷ ks) h = ground (
    arith,
    check_rank-service_id spec.service state,
    check_rank-identity_id label k,
    checks_of-ranked known label spec ks h,
  )

  blocks-ranked :
      (known : List Text) (identities : List (Text × IdentitySpec))
      → All (λ e. contains (service_id (e.1.service) state) known ≡ true) identities
      → All (λ e. every (is_ranked known check_rank) (identity_block e.0 e.1) ≡ true) identities
  blocks-ranked known [] h = tt
  blocks-ranked known ((label, spec) ∷ identities) h = (
    checks_of-ranked known label spec (identity_kinds spec) h.0,
    blocks-ranked known identities h.1,
  )

  -- Where the state checks of their services are known, the identity checks wait on known checks.
  pub build_identity_checks-ranked :
      (known : List Text) (identities : List (Text × IdentitySpec))
      → All (λ e. contains (service_id (e.1.service) state) known ≡ true) identities
      → every (is_ranked known check_rank) (build_identity_checks host identities) ≡ true
  unfolding build_identity_checks
  build_identity_checks-ranked known identities h =
      build-ranked identity_naming identity_block identity_family known check_rank identities
        (blocks-ranked known identities h)

  -- What holds of every ID of an identity check.
  pub every-build_identity_checks :
      (q : Text → Bool) (identities : List (Text × IdentitySpec))
      → ((label : Text) (k : IdentityKind) → q (identity_id label k) ≡ true)
      → every q (names (build_identity_checks host identities)) ≡ true
  unfolding identity_id ident build_identity_checks
  every-build_identity_checks q identities h =
      every-build identity_naming identity_block identity_family q identities h

  pub build_identity_checks-IsDistinct :
      (identities : List (Text × IdentitySpec))
      → IsDistinct (keys identities)
      → IsDistinct (names (build_identity_checks host identities))
  unfolding build_identity_checks
  build_identity_checks-IsDistinct identities d =
      build-IsDistinct identity_naming identity_block identity_family identities d
