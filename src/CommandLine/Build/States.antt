-- ===== src/CommandLine/Build/States.antt =====
-- cmd/savk/main.go: the services that `buildServiceBackedChecks` synthesizes states for.
use savk.Base.{
  ◌≡◌, refl, ◌∙◌, ap, Bool, true, false, not, ◌&&◌, ◌||◌, List, [], ◌∷◌, none, some, every, arith,
  Option-cases, inl, inr, All,
}
use savk.Text.{Text, text_eq, text_eq_iff, text_eq_refl, codes}
use savk.Engine.Known.{every-of_contains}
use savk.Text.Order.{contains, insert, sort_strings, contains-sort_strings}
use savk.Text.Distinct.{IsDistinct, sort_strings-IsDistinct}
use savk.Contract.Schema.{ServiceSpec, IdentitySpec, keys}
use savk.Contract.Parse.{lookup_spec}
use savk.CommandLine.Build.{only_state, set_service, synthesize, insert_entry, sort_entries}

keys-insert_entry :
    (k : Text) (v : ServiceSpec) (m : List (Text × ServiceSpec))
    → keys (insert_entry (k, v) m) ≡ insert k (keys m)
unfolding insert_entry insert
keys-insert_entry k v [] = refl
keys-insert_entry k v ((x, u) ∷ m) = ground (arith, keys-insert_entry k v m)

keys-sort_entries : (m : List (Text × ServiceSpec)) → keys (sort_entries m) ≡ sort_strings (keys m)
unfolding sort_entries sort_strings
keys-sort_entries [] = refl
keys-sort_entries ((k, v) ∷ m) =
    keys-insert_entry k v (sort_entries m) ∙ ap (insert k) (keys-sort_entries m)

contains-set_service :
    (x k : Text) (v : ServiceSpec) (m : List (Text × ServiceSpec))
    → contains x (keys (set_service k v m)) ≡ (contains x (keys m) || text_eq x k)
unfolding set_service contains
contains-set_service x k v [] = ground arith
contains-set_service x k v ((y, u) ∷ m) =
    ground (arith, text_eq_iff k y, contains-set_service x k v m)

set_service-IsDistinct :
    (k : Text) (v : ServiceSpec) (m : List (Text × ServiceSpec))
    → IsDistinct (keys m)
    → IsDistinct (keys (set_service k v m))
unfolding set_service contains
set_service-IsDistinct k v [] d = (refl, tt)
set_service-IsDistinct k v ((y, u) ∷ m) d = ground (
  arith,
  d.0,
  text_eq_iff k y,
  text_eq_iff y k,
  contains-set_service y k v m,
  set_service-IsDistinct k v m d.1,
)

-- An identity with this service, for which a state is synthesized: always, if the services are not
-- run themselves, else if the service is not declared.
unfoldable pub is_synthesized :
    Bool → List (Text × ServiceSpec) → Text → List (Text × IdentitySpec) → Bool
is_synthesized include services x [] = false
is_synthesized include services x ((label, spec) ∷ identities) =
    (text_eq x spec.service && not (include && contains x (keys services)))
    || is_synthesized include services x identities

lookup_spec-contains :
    (services : List (Text × ServiceSpec)) (x : Text)
    → contains x (keys services)
      ≡ (elim (lookup_spec services x) [ none ↦ false | some spec ↦ true ])
unfolding lookup_spec contains
lookup_spec-contains [] x = refl
lookup_spec-contains ((k, v) ∷ services) x = ground (arith, lookup_spec-contains services x)

contains-synthesize :
    (include : Bool) (services : List (Text × ServiceSpec)) (x : Text)
    (identities : List (Text × IdentitySpec)) (m : List (Text × ServiceSpec))
    → contains x (keys (synthesize include services identities m))
      ≡ (contains x (keys m) || is_synthesized include services x identities)
unfolding synthesize is_synthesized
contains-synthesize include services x [] m = ground arith
contains-synthesize include services x ((label, spec) ∷ identities) m =
    let later = contains-synthesize include services x identities in
    let active = only_state (codes "active") in
    elim (Option-cases (lookup_spec services spec.service)) [
      | inl missing ↦ ground (
        arith,
        text_eq_iff x spec.service,
        later (set_service spec.service active m),
        contains-set_service x spec.service active m,
        lookup_spec-contains services x,
      )
      | inr (declared, found) ↦ ground (
        arith,
        text_eq_iff x spec.service,
        later m,
        later (set_service spec.service (only_state declared.state) m),
        contains-set_service x spec.service (only_state declared.state) m,
        lookup_spec-contains services x,
      )
    ]

synthesize-IsDistinct :
    (include : Bool) (services : List (Text × ServiceSpec))
    (identities : List (Text × IdentitySpec)) (m : List (Text × ServiceSpec))
    → IsDistinct (keys m)
    → IsDistinct (keys (synthesize include services identities m))
unfolding synthesize
synthesize-IsDistinct include services [] m d = d
synthesize-IsDistinct include services ((label, spec) ∷ identities) m d =
    let later = synthesize-IsDistinct include services identities in
    let active = only_state (codes "active") in
    elim (Option-cases (lookup_spec services spec.service)) [
      | inl missing ↦ ground (
        arith,
        later (set_service spec.service active m) (set_service-IsDistinct spec.service active m d),
      )
      | inr (declared, found) ↦ ground (
        arith,
        later m d,
        later (set_service spec.service (only_state declared.state) m)
            (set_service-IsDistinct spec.service (only_state declared.state) m d),
      )
    ]

-- The keys of the map of synthesized states.
unfoldable pub states :
    Bool → List (Text × ServiceSpec) → List (Text × IdentitySpec) → List (Text × ServiceSpec)
unfolding sort_entries synthesize
states include services identities = sort_entries (synthesize include services identities [])

pub contains-states :
    (include : Bool) (services : List (Text × ServiceSpec)) (x : Text)
    (identities : List (Text × IdentitySpec))
    → contains x (keys (states include services identities))
      ≡ is_synthesized include services x identities
unfolding states contains
contains-states include services x identities =
    let m = synthesize include services identities [] in
    ap (contains x) (keys-sort_entries m)
    ∙ contains-sort_strings x (keys m)
    ∙ contains-synthesize include services x identities []

pub states-IsDistinct :
    (include : Bool) (services : List (Text × ServiceSpec))
    (identities : List (Text × IdentitySpec))
    → IsDistinct (keys (states include services identities))
unfolding states
states-IsDistinct include services identities =
    let m = synthesize include services identities [] in
    rw keys-sort_entries
      (sort_strings-IsDistinct (keys m) (synthesize-IsDistinct include services identities [] tt))

is_synthesized-declared :
    (services : List (Text × ServiceSpec)) (x : Text) (identities : List (Text × IdentitySpec))
    → contains x (keys services) ≡ true
    → is_synthesized true services x identities ≡ false
unfolding is_synthesized
is_synthesized-declared services x [] h = refl
is_synthesized-declared services x ((label, spec) ∷ identities) h =
    ground (arith, is_synthesized-declared services x identities)

-- No state is synthesized for a declared service whose checks are run.
pub every-not_synthesized :
    (services : List (Text × ServiceSpec)) (identities : List (Text × IdentitySpec))
    → every (λ x. not (contains x (keys (states true services identities)))) (keys services) ≡ true
every-not_synthesized services identities =
    every-of_contains (λ x. not (contains x (keys (states true services identities))))
      (keys services)
      (λ x h. ground (
        arith,
        contains-states true services x identities,
        is_synthesized-declared services x identities h,
      ))

-- A service has its state check: among those of the declared services, if they are run, or among
-- the synthesized ones.
abbrev pub has_state : Bool → List (Text × ServiceSpec) → List (Text × IdentitySpec) → Text → Bool
has_state include services identities x =
    (include && contains x (keys services))
    || contains x (keys (states include services identities))

All-has_state-from :
    (include : Bool) (services : List (Text × ServiceSpec)) (all rest : List (Text × IdentitySpec))
    → ((x : Text)
        → is_synthesized include services x rest ≡ true
        → is_synthesized include services x all ≡ true)
    → All (λ e. has_state include services all e.1.service ≡ true) rest
unfolding is_synthesized
All-has_state-from include services all [] more = tt
All-has_state-from include services all ((label, spec) ∷ rest) more = (
  ground (
    arith,
    contains-states include services spec.service all,
    more spec.service,
    text_eq_refl spec.service,
  ),
  All-has_state-from include services all rest (λ x h. more x (ground arith)),
)

-- The service of every identity has.
pub All-has_state :
    (include : Bool) (services : List (Text × ServiceSpec))
    (identities : List (Text × IdentitySpec))
    → All (λ e. has_state include services identities e.1.service ≡ true) identities
All-has_state include services identities =
    All-has_state-from include services identities identities (λ x h. h)
