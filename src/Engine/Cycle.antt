-- ===== src/Engine/Cycle.antt =====
-- What `detectCycles` reports: a path along prerequisites that meets itself.
use savk.Base.{
  ℕ, zero, suc, ◌<◌, ◌≡◌, refl, true, List, [], ◌∷◌, ◌++◌, inl, inr, arith, Result, ok, err, ◌>>=◌,
}
use savk.Text.{Text, text_eq_iff, text_eq_refl}
use savk.Text.Order.{contains, contains-append}
use savk.Engine.{
  unknown, active, done, Marks, set_mark, Stop, out_of_fuel, fault, empty_id, duplicate_id,
  missing_prerequisite, prerequisite_cycle, fold_each, detect_visit, detect_cycles,
}
use savk.Engine.Visits.{detect_visit-unknown, detect_visit-active, detect_visit-done}
use savk.Engine.Visits.{Mark-cases}

module _ (prereqs : Text → List Text) where
  -- Each ID is followed by one of its prerequisites.
  abbrev pub Linked : List Text → Type 0
  Linked [] = Unit {0}
  Linked (x ∷ []) = Unit {0}
  Linked (x ∷ y ∷ ys) = (contains y (prereqs x) ≡ true) × Linked (y ∷ ys)

  -- A linked path whose last ID has been met before.
  pub record IsCycle (path : List Text) : Type 0 where
    pub before : List Text
    pub last : Text
    pub splits : path ≡ before ++ (last ∷ [])
    pub linked : Linked path
    pub again : contains last before ≡ true

  Linked-concat :
      (xs : List Text) (x y : Text)
      → Linked (xs ++ (x ∷ []))
      → contains y (prereqs x) ≡ true
      → Linked ((xs ++ (x ∷ [])) ++ (y ∷ []))
  Linked-concat [] x y l h = (h, tt)
  Linked-concat (z ∷ []) x y l h = (l.0, (h, tt))
  Linked-concat (z ∷ z' ∷ zs) x y l h = (l.0, Linked-concat (z' ∷ zs) x y l.1 h)

  -- What a search under the IDs of `stack` gives.
  abbrev pub Reports : Marks → Result Stop Marks → Type 0
  Reports m (ok m') = (k : Text) → m' k ≡ active → m k ≡ active
  Reports m (err out_of_fuel) = Unit {0}
  Reports m (err (fault (prerequisite_cycle path))) = IsCycle path
  Reports m (err (fault empty_id)) = ⊥
  Reports m (err (fault (duplicate_id _))) = ⊥
  Reports m (err (fault (missing_prerequisite _ _))) = ⊥

  Reports-bind :
      (m : Marks) (r : Result Stop Marks) (f : Marks → Result Stop Marks)
      → Reports m r
      → ((m' : Marks) → ((k : Text) → m' k ≡ active → m k ≡ active) → Reports m (f m'))
      → Reports m (r >>= f)
  Reports-bind m (ok m') f h rest = rest m' h
  Reports-bind m (err out_of_fuel) f h rest = tt
  Reports-bind m (err (fault (prerequisite_cycle path))) f h rest = h
  Reports-bind m (err (fault empty_id)) f h rest = h
  Reports-bind m (err (fault (duplicate_id _))) f h rest = h
  Reports-bind m (err (fault (missing_prerequisite _ _))) f h rest = h

  Reports-weaken :
      (m m' : Marks) (r : Result Stop Marks)
      → ((k : Text) → m' k ≡ active → m k ≡ active)
      → Reports m' r
      → Reports m r
  Reports-weaken m m' (ok m'') less h = λ k e. less k (h k e)
  Reports-weaken m m' (err out_of_fuel) less h = tt
  Reports-weaken m m' (err (fault (prerequisite_cycle path))) less h = h
  Reports-weaken m m' (err (fault empty_id)) less h = h
  Reports-weaken m m' (err (fault (duplicate_id _))) less h = h
  Reports-weaken m m' (err (fault (missing_prerequisite _ _))) less h = h

  -- The IDs that are being visited stand on the stack.
  abbrev OnStack : List Text → Marks → Type 0
  OnStack stack m = (k : Text) → m k ≡ active → contains k stack ≡ true

  fold_each-Reports :
      (stack ks : List Text) (f : Marks → Text → Result Stop Marks)
      → ((m : Marks) (k : Text) → OnStack stack m → contains k ks ≡ true → Reports m (f m k))
      → (m : Marks) → OnStack stack m
      → Reports m (fold_each f m ks)
  unfolding contains
  fold_each-Reports stack [] f step m on = λ k h. h
  fold_each-Reports stack (k ∷ ks) f step m on =
      Reports-bind m (f m k) (λ m'. fold_each f m' ks)
        (step m k on (ground (arith, text_eq_refl k)))
        λ m' less. Reports-weaken m m' (fold_each f m' ks) less (
          fold_each-Reports stack ks f (λ m k on h. step m k on (ground arith)) m'
            λ j e. on j (less j e))

  detect_visit-Reports :
      (n : ℕ) (stack : List Text) (m : Marks) (id : Text)
      → OnStack stack m
      → Linked (stack ++ (id ∷ []))
      → Reports m (detect_visit prereqs n stack m id)
  detect_visit-Reports zero stack m id on linked = unfold detect_visit in tt
  detect_visit-Reports (suc n) stack m id on linked = elim (Mark-cases (m id)) [
    | inl e ↦ rw (detect_visit-unknown prereqs n stack m id e) (
        Reports-leave _ (
          fold_each-Reports (stack ++ (id ∷ [])) (prereqs id) _
            (λ m' k on' h.
              detect_visit-Reports n (stack ++ (id ∷ [])) m' k on'
                (Linked-concat stack id k linked h))
            (set_mark m id active)
            λ k a.
              unfold contains in
              ground (arith, on k, contains-append k stack (id ∷ []), text_eq_iff k id)))
    | inr (inl e) ↦
        rw (detect_visit-active prereqs n stack m id e)
          (record { before = stack; last = id; splits = refl; linked = linked; again = on id e })
    | inr (inr e) ↦ rw (detect_visit-done prereqs n stack m id e) (λ k h. h)
  ]
    where
      Reports-leave :
          (r : Result Stop Marks)
          → Reports (set_mark m id active) r
          → Reports m (r >>= λ m'. ok (set_mark m' id done))
      Reports-leave (ok m') h = λ k a. ground (arith, h k, text_eq_iff k id)
      Reports-leave (err out_of_fuel) h = tt
      Reports-leave (err (fault (prerequisite_cycle path))) h = h
      Reports-leave (err (fault empty_id)) h = h
      Reports-leave (err (fault (duplicate_id _))) h = h
      Reports-leave (err (fault (missing_prerequisite _ _))) h = h

  pub detect_cycles-Reports :
      (n : ℕ) (ids : List Text) → Reports (λ _. unknown) (detect_cycles prereqs n ids)
  unfolding detect_cycles
  detect_cycles-Reports n ids =
      fold_each-Reports [] ids _ (λ m k on h. detect_visit-Reports n [] m k on tt) (λ _. unknown)
        (λ k e. cc)

  -- A numbering that falls along prerequisites rules a cycle out.
  abbrev pub Ranked : (Text → ℕ) → Type 0
  Ranked rank = (k p : Text) → contains p (prereqs k) ≡ true → rank p < rank k

  rank-lt :
      (rank : Text → ℕ)
      → Ranked rank
      → (xs : List Text) (y z : Text) → Linked (xs ++ (z ∷ []))
      → contains y xs ≡ true
      → rank z < rank y
  unfolding contains
  rank-lt rank falls [] y z l h = cc
  rank-lt rank falls (x ∷ []) y z l h = ground (arith, falls x z, text_eq_iff y x)
  rank-lt rank falls (x ∷ x' ∷ xs) y z l h = ground (
    arith,
    falls x x',
    text_eq_iff y x,
    text_eq_refl x',
    rank-lt rank falls (x' ∷ xs) x' z l.1,
    rank-lt rank falls (x' ∷ xs) y z l.1,
  )

  pub not-IsCycle : (rank : Text → ℕ) → Ranked rank → (path : List Text) → ¬ IsCycle path
  not-IsCycle rank falls path c =
      let h = rank-lt rank falls c.before c.last c.last (rw c.splits at c.linked) c.again in
      absurd (omega arith)
