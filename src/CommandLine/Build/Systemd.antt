-- ===== src/CommandLine/Build/Systemd.antt =====
-- cmd/savk/main.go: the checks that systemd backs can be ordered, with those of identities behind
-- those of services.
use mathlib.Core.List.{append-nil}
use savk.Base.{
  ◌≡◌, refl, ◌∙◌, Bool, true, false, not, ◌||◌, if◌then◌else◌, List, [], ◌∷◌, ◌++◌, every, All,
  arith,
}
use savk.Text.{Text, text_eq, codes}
use savk.Text.Order.{contains}
use savk.Text.Ops.{has_prefix}
use savk.Text.Distinct.{IsDistinct}
use savk.Contract.Schema.{Contract, IdentitySpec, keys}
use savk.Engine.{Check}
use savk.Engine.Closed.{names}
use savk.Engine.Ordered.{
  IsOrdered, IsOrdered-append, contains-names-append, names-append, every-append,
}
use savk.Collectors.Naming.{differ}
use savk.Collectors.Ranks.{check_rank}
use savk.Collectors.Build.Named.{every-apart, contains-false}
use savk.Collectors.Services.{state, service_id}
use savk.Collectors.Identity.{identity_id}
use savk.Collectors.Identity.Run.{build_identity_checks}
use savk.Collectors.Identity.Ordered.{
  build_identity_checks-ranked, build_identity_checks-IsDistinct, every-build_identity_checks,
}
use savk.CommandLine.Behind.{contains-behind_namespace}
use savk.CommandLine.Build.{
  Hosts, service_namespace_id, service_backed_checks, build_service_backed_checks, systemd_checks,
}
use savk.CommandLine.Build.States.{has_state, All-has_state}
use savk.CommandLine.Build.Services.{
  every-weaken, guarded, guarded-IsOrdered, has_prefix-guarded, contains-service_backed_checks,
}

-- A check that systemd backs, by its ID.
abbrev pub is_backed : Text → Bool
is_backed x = has_prefix x (codes "service.") || has_prefix x (codes "identity.")

module _ {W : Type 0} (hosts : Hosts W) (c : Contract) where
  abbrev identities : List (Check W)
  identities = build_identity_checks hosts.identity_host c.identity

  has_prefix-identities : every (λ x. has_prefix x (codes "identity.")) (names identities) ≡ true
  unfolding codes has_prefix identity_id
  has_prefix-identities =
      every-build_identity_checks hosts.identity_host (λ x. has_prefix x (codes "identity."))
        c.identity (λ label k. refl)

  states_known :
      (s : Bool) (es : List (Text × IdentitySpec))
      → All (λ e. has_state s c.services c.identity e.1.service ≡ true) es
      → All
          (λ e.
            contains (service_id (e.1.service) state) (names (guarded hosts c s true ++ identities))
            ≡ true)
          es
  states_known s [] h = tt
  states_known s ((label, spec) ∷ es) h =
      let id = service_id spec.service state in
      (
        contains-names-append id (guarded hosts c s true) identities
            ∙ ground (
              arith,
              contains-behind_namespace id hosts.probe (codes "services") service_namespace_id
                  c.metadata.target (service_backed_checks hosts c s true)
                  (contains-service_backed_checks hosts c s spec.service h.0),
            ),
        states_known s es h.1,
      )

  nil_apart : every (λ x. not (text_eq [] x)) (names identities) ≡ true
  unfolding identity_id codes text_eq
  nil_apart =
      every-build_identity_checks hosts.identity_host (λ x. not (text_eq [] x)) c.identity
        (λ label k. refl)

  -- The identity checks behind the service checks.
  with_identities-IsOrdered :
      (s : Bool)
      → IsDistinct (keys c.services)
      → IsDistinct (keys c.identity)
      → IsOrdered check_rank (guarded hosts c s true ++ identities)
  unfolding codes differ
  with_identities-IsOrdered s d d' =
      IsOrdered-append check_rank (guarded hosts c s true) identities
        (guarded-IsOrdered hosts c s true d)
        (build_identity_checks-IsDistinct hosts.identity_host c.identity d')
        (contains-false [] (names identities) nil_apart)
        (build_identity_checks-ranked hosts.identity_host
          (names (guarded hosts c s true ++ identities)) c.identity
          (states_known s c.identity (All-has_state s c.services c.identity)))
        (every-apart (codes "service.") (codes "identity.") (names (guarded hosts c s true))
          (names identities) refl (has_prefix-guarded hosts c s true) has_prefix-identities)

  backed : Bool → Bool → List (Check W)
  backed s i = if s || i then guarded hosts c s i ++ (if i then identities else []) else []

  every-guarded : (s i : Bool) → every is_backed (names (guarded hosts c s i)) ≡ true
  every-guarded s i =
      every-weaken (λ x. has_prefix x (codes "service.")) is_backed (names (guarded hosts c s i))
        (λ x h. ground arith) (has_prefix-guarded hosts c s i)

  every-identities : every is_backed (names identities) ≡ true
  every-identities =
      every-weaken (λ x. has_prefix x (codes "identity.")) is_backed (names identities)
        (λ x h. ground arith) has_prefix-identities

  every-backed : (s i : Bool) → every is_backed (names (backed s i)) ≡ true
  unfolding backed
  every-backed s true = ground (
    arith,
    names-append (guarded hosts c s true) identities,
    every-append is_backed (names (guarded hosts c s true)) (names identities),
    every-guarded s true,
    every-identities,
  )
  every-backed true false = rw append-nil (every-guarded true false)
  every-backed false false = refl

  backed-IsOrdered :
      (s i : Bool)
      → IsDistinct (keys c.services)
      → IsDistinct (keys c.identity)
      → IsOrdered check_rank (backed s i)
  unfolding backed contains
  backed-IsOrdered true true d d' = with_identities-IsOrdered true d d'
  backed-IsOrdered false true d d' = with_identities-IsOrdered false d d'
  backed-IsOrdered true false d d' = rw append-nil (guarded-IsOrdered hosts c true false d)
  backed-IsOrdered false false d d' = record { distinct = tt; named = refl; ranked = refl }

  pub every-systemd_checks :
      (domains : List Text) → every is_backed (names (systemd_checks hosts c domains)) ≡ true
  unfolding systemd_checks build_service_backed_checks backed
  every-systemd_checks domains =
      every-backed (contains (codes "services") domains) (contains (codes "identity") domains)

  pub systemd_checks-IsOrdered :
      (domains : List Text)
      → IsDistinct (keys c.services)
      → IsDistinct (keys c.identity)
      → IsOrdered check_rank (systemd_checks hosts c domains)
  unfolding systemd_checks build_service_backed_checks backed
  systemd_checks-IsOrdered domains d d' =
      backed-IsOrdered (contains (codes "services") domains) (contains (codes "identity") domains) d
        d'
