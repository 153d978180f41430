-- ===== src/Contract/Distance/Laws.antt =====
-- `levenshtein` against the recursive edit distance.
use mathlib.Core.List.{reverse_aux, reverse-reverse}
use native.Mathlib.Numerals.{add-one}
use savk.Base.{
  ℕ, suc, ◌+◌, ◌≡◌, ◌↔◌, refl, sym, ◌∙◌, ap, List, [], ◌∷◌, reverse, if◌then◌else◌, length,
  is_empty, arith, inl, inr, Bool-cases,
}
use savk.Text.{Text, text_eq, text_eq_iff}
use savk.Contract.Distance.{min_int, cost, next_column, columns, count_from, last_or, levenshtein}

-- The edit distance of two strings, by the recursion on their last bytes: both are given reversed.
unfoldable pub distance : Text → Text → ℕ
unfolding min_int
distance [] ys = length ys
distance (x ∷ xs) [] = suc (length xs)
distance (x ∷ xs) (y ∷ ys) =
    min_int (distance xs (y ∷ ys) + 1)
      ((distance (x ∷ xs) ys + 1) ∷ (distance xs ys + cost x y) ∷ [])

-- The values of a column behind the first, for the left string `xs` and what follows `ys` of the
-- right one.
column_of : Text → Text → Text → List ℕ
column_of xs ys [] = []
column_of xs ys (r ∷ right) = distance xs (r ∷ ys) ∷ column_of xs (r ∷ ys) right

next_column-column_of :
    (c : ℕ) (xs ys right : Text)
    → next_column c (distance xs ys) (distance (c ∷ xs) ys) right (column_of xs ys right)
      ≡ column_of (c ∷ xs) ys right
unfolding next_column column_of distance
next_column-column_of c xs ys [] = refl
next_column-column_of c xs ys (r ∷ right) =
    ap (◌∷◌ (distance (c ∷ xs) (r ∷ ys))) (next_column-column_of c xs (r ∷ ys) right)

distance-nil_left : (ys : Text) → distance [] ys ≡ length ys
unfolding distance
distance-nil_left ys = refl

distance-nil : (xs : Text) → distance xs [] ≡ length xs
unfolding distance
distance-nil [] = refl
distance-nil (x ∷ xs) = refl

length-onto : (xs ys : Text) → length (reverse_aux xs ys) ≡ length xs + length ys
length-onto [] ys = omega arith
length-onto (x ∷ xs) ys = omega (arith, length-onto xs (x ∷ ys))

columns-column_of :
    (left xs right : Text)
    → columns (suc (length xs)) left right (length xs) (column_of xs [] right)
      ≡ distance (reverse_aux left xs) [] ∷ column_of (reverse_aux left xs) [] right
unfolding columns distance
columns-column_of [] xs right = rw distance-nil
columns-column_of (c ∷ left) xs right = rw (add-one, step) (columns-column_of left (c ∷ xs) right)
  where
    step :
        next_column c (length xs) (suc (length xs)) right (column_of xs [] right)
        ≡ column_of (c ∷ xs) [] right
    step = rw distance-nil at (next_column-column_of c xs [] right)

count_from-column_of :
    (ys right : Text) → count_from (suc (length ys)) right ≡ column_of [] ys right
unfolding count_from column_of distance
count_from-column_of ys [] = refl
count_from-column_of ys (r ∷ right) =
    rw add-one (ap (◌∷◌ (suc (length ys))) (count_from-column_of (r ∷ ys) right))

last_or-column_of :
    (xs ys right : Text) (d : ℕ)
    → last_or (distance xs ys) (column_of xs ys right) ≡ distance xs (reverse_aux right ys)
unfolding last_or column_of
last_or-column_of xs ys [] d = refl
last_or-column_of xs ys (r ∷ right) d = last_or-column_of xs (r ∷ ys) right d

last_or-columns :
    (xs right : Text)
    → last_or 0 (distance xs [] ∷ column_of xs [] right) ≡ distance xs (reverse right)
unfolding last_or
last_or-columns xs right = last_or-column_of xs [] right 0

distance_self : (xs : Text) → distance xs xs ≡ 0
unfolding distance
distance_self [] = refl
distance_self (x ∷ xs) = ground (arith, distance_self xs)

eq_of_distance : (xs ys : Text) → distance xs ys ≡ 0 → xs ≡ ys
unfolding distance
eq_of_distance [] [] h = refl
eq_of_distance [] (y ∷ ys) h = absurd (omega arith)
eq_of_distance (x ∷ xs) [] h = absurd (omega arith)
eq_of_distance (x ∷ xs) (y ∷ ys) h = ground (arith, eq_of_distance xs ys)

-- The column algorithm computes the recursive edit distance.
pub levenshtein-eq-distance :
    (left right : Text) → levenshtein left right ≡ distance (reverse left) (reverse right)
unfolding levenshtein
levenshtein-eq-distance left right = elim (Bool-cases (text_eq left right)) [
  | inl same ↦ rw same (rw ((text_eq_iff left right).0 same) (sym (distance_self (reverse right))))
  | inr differs ↦ rw differs (by_columns left right)
]
  where
    by_columns :
        (l r : Text)
        → (if is_empty l
            then length r
            else if is_empty r
            then length l
            else last_or 0 (columns 1 l r 0 (count_from 1 r)))
          ≡ distance (reverse l) (reverse r)
    by_columns [] r = sym (distance-nil_left (reverse r) ∙ length-onto r [] ∙ omega arith)
    by_columns (c ∷ l) [] =
        sym (distance-nil (reverse (c ∷ l)) ∙ length-onto (c ∷ l) [] ∙ omega arith)
    by_columns (c ∷ l) (d ∷ r) =
        ap (λ k. last_or 0 (columns 1 (c ∷ l) (d ∷ r) 0 k)) (count_from-column_of [] (d ∷ r))
        ∙ ap (last_or 0) (columns-column_of (c ∷ l) [] (d ∷ r))
        ∙ last_or-columns (reverse (c ∷ l)) (d ∷ r)

-- The distance of two strings is 0 just when they are the same.
levenshtein-zero_iff : (left right : Text) → (levenshtein left right ≡ 0) ↔ (left ≡ right)
levenshtein-zero_iff left right = (
  (λ h.
      sym (reverse-reverse left)
      ∙ ap reverse (eq_of_distance _ _ (sym (levenshtein-eq-distance left right) ∙ h))
      ∙ reverse-reverse right),
  (λ e. rw (levenshtein-eq-distance, e) (distance_self (reverse right))),
)
