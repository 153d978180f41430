-- ===== src/Contract/Distance.antt =====
-- internal/contract/parser.go: `levenshtein`, `minInt` and `nearestField`.
pub mod Laws
use savk.Base.{
  ℕ, zero, suc, ◌+◌, Bool, true, false, ◌&&◌, ◌||◌, List, [], ◌∷◌, ◌++◌, Option, none, some, ltb,
  ◌==◌, if◌then◌else◌, length, is_empty,
}
use savk.Text.{Text, text_eq}

-- `minInt`: the first value, and the others.
unfoldable pub min_int : ℕ → List ℕ → ℕ
min_int best [] = best
min_int best (v ∷ vs) = min_int (if ltb v best then v else best) vs

abbrev pub cost : ℕ → ℕ → ℕ
cost a b = if a == b then 0 else 1

-- The inner loop, for the byte `c` of the left string: `previous` is the old value before the one
-- at hand, `deleted` the new one. Gives the new values from there on.
unfoldable pub next_column : ℕ → ℕ → ℕ → Text → List ℕ → List ℕ
unfolding min_int
next_column c previous deleted (r ∷ right) (old ∷ column) =
    let value = min_int (old + 1) ((deleted + 1) ∷ (previous + cost c r) ∷ []) in
    value ∷ next_column c old value right column
next_column c previous deleted _ _ = []

-- The outer loop: `first` and `column` are the values of the column, and `i` counts the rounds.
unfoldable pub columns : ℕ → Text → Text → ℕ → List ℕ → List ℕ
unfolding next_column
columns i [] right first column = first ∷ column
columns i (c ∷ left) right first column =
    columns (i + 1) left right i (next_column c first i right column)

-- `column[i] = i`, from `i` on, with a value behind the first for each byte.
unfoldable pub count_from : ℕ → Text → List ℕ
count_from i [] = []
count_from i (r ∷ right) = i ∷ count_from (i + 1) right

unfoldable pub last_or : ℕ → List ℕ → ℕ
last_or d [] = d
last_or d (v ∷ vs) = last_or v vs

-- `levenshtein`
unfoldable pub levenshtein : Text → Text → ℕ
unfolding text_eq columns count_from last_or
levenshtein left right =
    if text_eq left right
    then 0
    else if is_empty left
    then length right
    else if is_empty right
    then length left
    else last_or 0 (columns 1 left right 0 (count_from 1 right))

-- The loop of `nearestField`: the best candidate so far, with its distance if there is one.
unfoldable pub nearest_from : Text → Text → Option ℕ → List Text → Text × Option ℕ
unfolding levenshtein
nearest_from field best distance [] = (best, distance)
nearest_from field best none (x ∷ xs) = nearest_from field x (some (levenshtein field x)) xs
nearest_from field best (some d) (x ∷ xs) =
    let e = levenshtein field x in
    nearest_from field (if ltb e d then x else best) (some (if ltb e d then e else d)) xs

-- `nearestField`
unfoldable pub nearest_field : Text → List Text → Text
unfolding nearest_from
nearest_field field allowed =
    let (best, distance) = nearest_from field [] none allowed in
    elim distance [ none ↦ best | some d ↦ if ltb 3 d then [] else best ]
