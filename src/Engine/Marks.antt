-- ===== src/Engine/Marks.antt =====
-- The marks of the depth-first searches: how many IDs are left to visit, and what a visit keeps.
use savk.Base.{
  ℕ, ◌+◌, ◌≤◌, ◌<◌, ◌≡◌, Bool, true, false, List, [], ◌∷◌, inl, inr, length, if◌then◌else◌, arith,
  Bool-cases,
}
use savk.Text.{Text, text_eq, text_eq_iff, text_eq_refl}
use savk.Text.Order.{contains}
use savk.Engine.{Mark, unknown, active, done, Marks, set_mark}

abbrev pub is_marked : Mark → Bool
is_marked unknown = false
is_marked active = true
is_marked done = true

abbrev pub is_done : Mark → Bool
is_done unknown = false
is_done active = false
is_done done = true

-- The number of these IDs that are not visited yet.
unfoldable pub unmarked : Marks → List Text → ℕ
unmarked m [] = 0
unmarked m (k ∷ ks) = (if is_marked (m k) then 0 else 1) + unmarked m ks

-- What is marked keeps its mark.
abbrev pub Keeps : Marks → Marks → Type 0
Keeps m m' = (k : Text) → is_marked (m k) ≡ true → m' k ≡ m k

pub Keeps-trans : (m m' m'' : Marks) → Keeps m m' → Keeps m' m'' → Keeps m m''
Keeps-trans m m' m'' a b k h = ground (arith, a k h, b k)

pub unmarked-le : (m m' : Marks) → Keeps m m' → (ks : List Text) → unmarked m' ks ≤ unmarked m ks
unfolding unmarked
unmarked-le m m' keep [] = omega arith
unmarked-le m m' keep (k ∷ ks) = ground (arith, keep k, unmarked-le m m' keep ks)

pub Keeps-enter : (m : Marks) (id : Text) → m id ≡ unknown → Keeps m (set_mark m id active)
Keeps-enter m id new k h = ground (arith, text_eq_iff k id)

-- Leaving `id` with `done` keeps what was marked before it was entered.
pub Keeps-leave :
    (m m' : Marks) (id : Text)
    → m id ≡ unknown
    → Keeps (set_mark m id active) m'
    → Keeps m (set_mark m' id done)
Keeps-leave m m' id new keep k h = ground (arith, text_eq_iff k id, keep k)

pub unmarked-enter :
    (m : Marks) (id : Text) (ks : List Text)
    → m id ≡ unknown
    → contains id ks ≡ true
    → unmarked (set_mark m id active) ks < unmarked m ks
unfolding unmarked contains
unmarked-enter m id [] new h = cc
unmarked-enter m id (k ∷ ks) new h = elim (Bool-cases (text_eq id k)) [
  | inl same ↦ ground (
    arith,
    text_eq_iff id k,
    text_eq_iff k id,
    text_eq_refl k,
    unmarked-le m (set_mark m id active) (Keeps-enter m id new) ks,
  )
  | inr differs ↦ ground (arith, text_eq_iff id k, text_eq_iff k id, unmarked-enter m id ks new)
]

pub unmarked-le-length : (m : Marks) (ks : List Text) → unmarked m ks ≤ length ks
unfolding unmarked
unmarked-le-length m [] = omega arith
unmarked-le-length m (k ∷ ks) = ground (arith, unmarked-le-length m ks)
