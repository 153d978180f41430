-- ===== src/Engine/Known.antt =====
-- What `validateChecks` knows of lists of IDs.
use savk.Base.{◌≡◌, ◌↔◌, refl, Bool, true, false, ◌||◌, List, [], ◌∷◌, ◌++◌, every, arith, ok, err}
use savk.Text.{Text, text_eq, text_eq_iff, text_eq_refl}
use savk.Text.Order.{contains, contains-append}
use savk.Engine.{
  Stop, out_of_fuel, fault, empty_id, duplicate_id, missing_prerequisite, prerequisite_cycle,
  require_known,
}
use savk.Text.Distinct.{IsDistinct}

pub every-contains :
    (p : Text → Bool) (ks : List Text) (k : Text)
    → every p ks ≡ true
    → contains k ks ≡ true
    → p k ≡ true
unfolding contains
every-contains p [] k e h = cc
every-contains p (x ∷ xs) k e h = ground (arith, text_eq_iff k x, every-contains p xs k)

pub every-of_contains :
    (p : Text → Bool) (ks : List Text)
    → ((k : Text) → contains k ks ≡ true → p k ≡ true)
    → every p ks ≡ true
unfolding contains
every-of_contains p [] h = refl
every-of_contains p (x ∷ xs) h =
    ground (arith, h x, text_eq_refl x, every-of_contains p xs (λ k e. h k (ground arith)))

pub contains-snoc :
    (k : Text) (xs : List Text) (x : Text)
    → contains k (xs ++ (x ∷ [])) ≡ (contains k xs || text_eq k x)
unfolding contains
contains-snoc k xs x = ground (arith, contains-append k xs (x ∷ []))

pub IsDistinct-middle :
    (xs : List Text) (x : Text) (ys : List Text)
    → IsDistinct (xs ++ (x ∷ ys))
    → contains x xs ≡ false
unfolding contains
IsDistinct-middle [] x ys d = refl
IsDistinct-middle (z ∷ zs) x ys d = ground (
  arith,
  contains-append z zs (x ∷ ys),
  text_eq_iff x z,
  text_eq_iff z x,
  IsDistinct-middle zs x ys d.1,
)

pub require_known_iff :
    (ids : List Text) (id : Text) (ps : List Text)
    → (require_known ids id ps ≡ ok tt) ↔ (every (λ p. contains p ids) ps ≡ true)
unfolding require_known
require_known_iff ids id [] = ((λ h. refl), (λ h. refl))
require_known_iff ids id (p ∷ ps) = ground (arith, require_known_iff ids id ps)

-- The errors of the searches, which the loops never give.
abbrev pub is_from_search : Stop → Bool
is_from_search out_of_fuel = true
is_from_search (fault (prerequisite_cycle _)) = true
is_from_search (fault empty_id) = false
is_from_search (fault (duplicate_id _)) = false
is_from_search (fault (missing_prerequisite _ _)) = false

pub require_known-err :
    (ids : List Text) (id : Text) (ps : List Text) (e : Stop)
    → require_known ids id ps ≡ err e
    → is_from_search e ≡ false
unfolding require_known
require_known-err ids id [] e h = cc
require_known-err ids id (p ∷ ps) e h = ground (arith, require_known-err ids id ps e)
