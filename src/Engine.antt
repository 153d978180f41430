-- ===== src/Engine.antt =====
-- internal/engine/check.go and engine.go: the checks, and how the engine orders them. Running
-- them is in the child Run.
pub mod Visits
pub mod Known
pub mod Run
mod Marks
mod Search
pub mod Cycle
pub mod Closed
pub mod Order
pub mod Ordered
use savk.Base.{
  ℕ, zero, suc, ◌≡◌, refl, Bool, true, false, ◌&&◌, ◌||◌, List, [], ◌∷◌, ◌++◌, map, Option, none,
  some, Result, ok, err, ◌>>=◌, ◌>>◌, length, every, if◌then◌else◌, arith,
}
use savk.Text.{Text, text_eq}
use savk.Text.Order.{contains, sort_strings}
use savk.Evidence.{CheckResult}

pub data ContextError : Type 0 where
  deadline_exceeded canceled : ContextError

-- What the program reads of a `context.Context`: `Err()`, and whether `Deadline()` is set.
pub record Context : Type 0 where
  pub failure : Option ContextError
  pub has_deadline : Bool

-- A call of `Check.Run` returns, or panics with a value that prints as the text.
pub data Outcome : Type 0 where
  returned : CheckResult → Outcome
  panicked : Text → Outcome

-- The interface `Check`, over a world `W` that its `Run` reads and changes.
pub record Check (W : Type 0) : Type 0 where
  pub id : Text
  pub domain : Text
  pub prerequisites : List Text
  pub run : Context → W → Outcome × W

pub data EngineError : Type 0 where
  empty_id : EngineError
  duplicate_id : Text → EngineError
  missing_prerequisite : Text → Text → EngineError
  prerequisite_cycle : List Text → EngineError

-- `out_of_fuel` stands for a recursion that goes on past its bound.
pub data Stop : Type 0 where
  out_of_fuel : Stop
  fault : EngineError → Stop

-- A loop that stops at the first error.
abbrev pub fold_each {ℓ κ μ} :
    {S : Type ℓ} {A : Type κ} {E : Type μ} → (S → A → Result E S) → S → List A → Result E S
fold_each f s [] = ok s
fold_each f s (x ∷ xs) = f s x >>= λ s'. fold_each f s' xs

-- visitUnknown, visitActive, visitDone
pub data Mark : Type 0 where
  unknown active done : Mark

abbrev pub Marks : Type 0
Marks = Text → Mark

abbrev pub set_mark : Marks → Text → Mark → Marks
set_mark m id v k = if text_eq k id then v else m k

-- `visit` of `detectCycles`. The stack is passed down: the source pops what it pushed.
unfoldable pub detect_visit : (Text → List Text) → ℕ → List Text → Marks → Text → Result Stop Marks
detect_visit prereqs zero stack m id = err out_of_fuel
detect_visit prereqs (suc n) stack m id = elim (m id) [
  | done ↦ ok m
  | active ↦ err (fault (prerequisite_cycle (stack ++ (id ∷ []))))
  | unknown ↦
      (fold_each (detect_visit prereqs n (stack ++ (id ∷ []))) (set_mark m id active) (prereqs id)
        >>= λ m'. ok (set_mark m' id done))
]

unfoldable pub detect_cycles : (Text → List Text) → ℕ → List Text → Result Stop Marks
unfolding detect_visit
detect_cycles prereqs fuel ids = fold_each (detect_visit prereqs fuel []) (λ _. unknown) ids

-- `visited` and `ordered` of `validateChecks`. The checks in `ordered` are named by their IDs.
pub record Walk : Type 0 where
  pub visited : Text → Bool
  pub ordered : List Text

abbrev pub enter : Walk → Text → Walk
enter w id = record w { visited = λ k. if text_eq k id then true else w.visited k }

abbrev pub leave : Walk → Text → Walk
leave w id = record w { ordered = w.ordered ++ (id ∷ []) }

-- `visit` of `validateChecks`
unfoldable pub order_visit : (Text → List Text) → ℕ → Walk → Text → Result Stop Walk
order_visit prereqs zero w id = err out_of_fuel
order_visit prereqs (suc n) w id = elim (w.visited id) [
  | true ↦ ok w
  | false ↦ (fold_each (order_visit prereqs n) (enter w id) (prereqs id) >>= λ w'. ok (leave w' id))
]

unfoldable pub order_ids : (Text → List Text) → ℕ → List Text → Result Stop Walk
unfolding order_visit
order_ids prereqs fuel ids =
    fold_each (order_visit prereqs fuel) (record { visited = λ _. false; ordered = [] }) ids

-- The second loop, for one ID.
unfoldable pub require_known : List Text → Text → List Text → Result Stop (Unit {0})
unfolding contains
require_known ids id [] = ok tt
require_known ids id (p ∷ ps) =
    if contains p ids then require_known ids id ps else err (fault (missing_prerequisite id p))

module _ {W : Type 0} where
  -- `byID[id]`
  unfoldable pub find_check : List (Check W) → Text → Option (Check W)
  unfolding text_eq
  find_check [] k = none
  find_check (c ∷ cs) k = if text_eq k c.id then some c else find_check cs k

  -- `byID[id].Prerequisites()`
  unfoldable pub prerequisites_of : List (Check W) → Text → List Text
  unfolding find_check
  prerequisites_of checks k = elim (find_check checks k) [ none ↦ [] | some c ↦ c.prerequisites ]

  -- The checks with these IDs, in this order.
  unfoldable pub resolve : List (Check W) → List Text → List (Check W)
  unfolding find_check
  resolve checks [] = []
  resolve checks (k ∷ ks) =
      let rest = resolve checks ks in elim (find_check checks k) [ none ↦ rest | some c ↦ c ∷ rest ]

  -- The first loop: `ids`, or the first ID that is empty or comes again.
  unfoldable pub collect_ids : List (Check W) → List Text → Result Stop (List Text)
  unfolding text_eq contains
  collect_ids [] ids = ok ids
  collect_ids (c ∷ cs) ids =
      let rest = collect_ids cs (ids ++ (c.id ∷ [])) in
      if text_eq c.id []
      then err (fault empty_id)
      else if contains c.id ids
      then err (fault (duplicate_id c.id))
      else rest

  unfoldable pub require_all : List (Check W) → List Text → List Text → Result Stop (Unit {0})
  unfolding require_known prerequisites_of
  require_all checks known [] = ok tt
  require_all checks known (id ∷ ids) =
      require_known known id (prerequisites_of checks id) >> require_all checks known ids

  -- `validateChecks`, with more fuel than there are checks for each recursion.
  unfoldable pub validate_checks : List (Check W) → Result Stop (List (Check W))
  unfolding collect_ids require_all detect_cycles order_ids resolve sort_strings
  validate_checks checks = do
    ids ← collect_ids checks []
    let sorted = sort_strings ids
    require_all checks ids sorted
    _ ← detect_cycles (prerequisites_of checks) (suc (length ids)) sorted
    w ← order_ids (prerequisites_of checks) (suc (length ids)) sorted
    ok (resolve checks w.ordered)
