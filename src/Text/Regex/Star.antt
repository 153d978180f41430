-- ===== src/Text/Regex/Star.antt =====
-- `regexp`: a repetition that never has to give a byte back.
use savk.Base.{
  ℕ, zero, suc, ◌≡◌, ◌≤◌, ◌<◌, refl, ap, Option, none, some, length, arith, Option-cases, inl, inr,
}
use savk.Text.Regex.{Cursor, star_at}

-- Going on from the place behind one byte or none.
abbrev pub go_on {ℓ} : {A : Type ℓ} → Option Cursor → (Cursor → Option A) → Option A
go_on none k = none
go_on (some q) k = k q

-- As many steps as there are, at most the fuel.
unfoldable pub run : ℕ → (Cursor → Option Cursor) → Cursor → Cursor
run zero next p = p
run (suc n) next p = elim (next p) [ none ↦ p | some q ↦ run n next q ]

pub run-ended :
    (n : ℕ) (next : Cursor → Option Cursor) (p : Cursor) → next p ≡ none → run n next p ≡ p
unfolding run
run-ended zero next p h = refl
run-ended (suc n) next p h = rw (h, run)

pub run-moved :
    (n : ℕ) (next : Cursor → Option Cursor) (p q : Cursor)
    → next p ≡ some q
    → run (suc n) next p ≡ run n next q
unfolding run
run-moved n next p q h = rw (h, run)

-- The first of two matches
abbrev or_else {ℓ} : {A : Type ℓ} → Option A → Option A → Option A
or_else x y = elim x [ some a ↦ some a | none ↦ y ]

or_else-none {ℓ} : {A : Type ℓ} (x : Option A) {y : Option A} → y ≡ none → or_else x y ≡ x
or_else-none none h = h
or_else-none (some a) h = refl

module _ {ℓ} {A : Type ℓ} (next : Cursor → Option Cursor)
    (step : Cursor → (Cursor → Option A) → Option A)
    (steps : (p : Cursor) (k : Cursor → Option A) → step p k ≡ go_on (next p) k) where
  star_at-suc :
      (n : ℕ) (p : Cursor) (k : Cursor → Option A)
      → star_at (suc n) step p k ≡ or_else (go_on (next p) (λ q. star_at n step q k)) (k p)
  unfolding star_at
  star_at-suc n p k = ap (λ (x : Option A). or_else x (k p)) (steps p (λ q. star_at n step q k))

  -- If what follows matches nowhere that another step can be made, a repetition is a run: it takes
  -- all that it can.
  pub star_at-run :
      (n : ℕ) (p : Cursor) (k : Cursor → Option A)
      → ((p q : Cursor) → next p ≡ some q → k p ≡ none)
      → star_at n step p k ≡ k (run n next p)
  star_at-run zero p k stuck = unfold star_at run in refl
  star_at-run (suc n) p k stuck = elim (Option-cases (next p)) [
    | inl ended ↦ rw (star_at-suc n p k, run-ended (suc n) next p ended, ended) refl
    | inr (q, moved) ↦
        rw (star_at-suc n p k, run-moved n next p q moved, moved, star_at-run n q k stuck)
          (or_else-none (k (run n next q)) (stuck p q moved))
  ]

  -- The same if what follows matches anywhere.
  pub star_at-run_total :
      (n : ℕ) (p : Cursor) (k : Cursor → Option A)
      → ((p : Cursor) → (a : A) × (k p ≡ some a))
      → star_at n step p k ≡ k (run n next p)
  star_at-run_total zero p k total = unfold star_at run in refl
  star_at-run_total (suc n) p k total = elim (Option-cases (next p)) [
    | inl ended ↦ rw (star_at-suc n p k, run-ended (suc n) next p ended, ended) refl
    | inr (q, moved) ↦
        let (a, found) = total (run n next q) in
        rw
          (
            star_at-suc n p k,
            run-moved n next p q moved,
            moved,
            star_at-run_total n q k total,
            found,
          )
          refl
  ]

module _ (next : Cursor → Option Cursor)
    (shorter : (p q : Cursor) → next p ≡ some q → length q.rest < length p.rest) where
  -- With as much fuel as text, a run ends where no step can be made.
  pub run-stops : (n : ℕ) (p : Cursor) → length p.rest ≤ n → next (run n next p) ≡ none
  run-stops zero p h = elim (Option-cases (next p)) [
    | inl ended ↦ rw (run-ended zero next p ended) ended
    | inr (q, moved) ↦ absurd (omega (arith, shorter p q moved))
  ]
  run-stops (suc n) p h = elim (Option-cases (next p)) [
    | inl ended ↦ rw (run-ended (suc n) next p ended) ended
    | inr (q, moved) ↦
        rw (run-moved n next p q moved) (run-stops n q (omega (arith, shorter p q moved)))
  ]

  pub length-run : (n : ℕ) (p : Cursor) → length (run n next p).rest ≤ length p.rest
  length-run zero p = unfold run in omega arith
  length-run (suc n) p = elim (Option-cases (next p)) [
    | inl ended ↦ rw (run-ended (suc n) next p ended) (omega arith)
    | inr (q, moved) ↦
        rw (run-moved n next p q moved) (omega (arith, shorter p q moved, length-run n q))
  ]
