-- ===== src/Engine/Visits.antt =====
-- One visit of `detectCycles` and of the order, by the mark of the ID.
use mathlib.Core.List.{append-nil, append_assoc}
use savk.Base.{
  ℕ, suc, ◌≡◌, refl, true, false, List, [], ◌∷◌, ◌++◌, inl, inr, every, ◌⊎◌, arith, ok, err, ◌>>=◌,
}
use savk.Text.{Text}
use savk.Text.Order.{contains}
use savk.Engine.{
  Mark, unknown, active, done, Marks, set_mark, fault, prerequisite_cycle, fold_each, Walk, enter,
  leave, detect_visit, order_visit,
}
use savk.Engine.Marks.{is_done, Keeps}

-- Every prerequisite of an ID stands before it; `seen` is what stands before the list.
abbrev pub InOrder : (Text → List Text) → List Text → List Text → Type 0
InOrder prereqs seen [] = Unit {0}
InOrder prereqs seen (x ∷ xs) =
    (every (λ p. contains p seen) (prereqs x) ≡ true) × InOrder prereqs (seen ++ (x ∷ [])) xs

pub InOrder-concat :
    (prereqs : Text → List Text) (seen xs : List Text) (x : Text)
    → InOrder prereqs seen xs
    → every (λ p. contains p (seen ++ xs)) (prereqs x) ≡ true
    → InOrder prereqs seen (xs ++ (x ∷ []))
InOrder-concat prereqs seen [] x o h = (rw append-nil at h, tt)
InOrder-concat prereqs seen (y ∷ ys) x o h =
    (o.0, InOrder-concat prereqs (seen ++ (y ∷ [])) ys x o.1 (rw append_assoc h))

pub Mark-cases : (a : Mark) → (a ≡ unknown) ⊎ ((a ≡ active) ⊎ (a ≡ done))
Mark-cases unknown = inl refl
Mark-cases active = inr (inl refl)
Mark-cases done = inr (inr refl)

done_kept :
    (m m' : Marks) (ks : List Text)
    → Keeps m m'
    → every (λ k. is_done (m k)) ks ≡ true
    → every (λ k. is_done (m' k)) ks ≡ true
done_kept m m' [] keep h = refl
done_kept m m' (k ∷ ks) keep h = ground (arith, keep k, done_kept m m' ks keep)

module _ (prereqs : Text → List Text) (n : ℕ) (stack : List Text) (m : Marks) (id : Text) where
  pub detect_visit-unknown :
      m id ≡ unknown
      → detect_visit prereqs (suc n) stack m id ≡ (
          fold_each
            (detect_visit prereqs n (stack ++ (id ∷ [])))
            (set_mark m id active)
            (prereqs id)
          >>= λ m'. ok (set_mark m' id done))
  unfolding detect_visit
  detect_visit-unknown e = rw (e, detect_visit)

  pub detect_visit-active :
      m id ≡ active
      → detect_visit prereqs (suc n) stack m id
        ≡ err (fault (prerequisite_cycle (stack ++ (id ∷ []))))
  unfolding detect_visit
  detect_visit-active e = rw (e, detect_visit)

  pub detect_visit-done : m id ≡ done → detect_visit prereqs (suc n) stack m id ≡ ok m
  unfolding detect_visit
  detect_visit-done e = rw (e, detect_visit)

module _ (prereqs : Text → List Text) (n : ℕ) (w : Walk) (id : Text) where
  pub order_visit-new :
      w.visited id ≡ false
      → order_visit prereqs (suc n) w id
        ≡ (fold_each (order_visit prereqs n) (enter w id) (prereqs id) >>= λ w'. ok (leave w' id))
  unfolding order_visit
  order_visit-new e = rw (e, order_visit)

  pub order_visit-old : w.visited id ≡ true → order_visit prereqs (suc n) w id ≡ ok w
  unfolding order_visit
  order_visit-old e = rw (e, order_visit)
