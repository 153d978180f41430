-- ===== src/Text/Order.antt =====
-- The order of Go strings, and `sort.Strings`: any sorting of a list of strings gives the same
-- list, so the library's algorithm is replaced by insertion.
use savk.Base.{
  suc, ◌≡◌, refl, ◌∙◌, ap, Bool, true, false, ◌&&◌, ◌||◌, List, [], ◌∷◌, ◌++◌, arith, ◌==◌, ltb,
  if◌then◌else◌, length,
}
use savk.Text.{Text, text_eq}

-- `a <= b` on strings
unfoldable pub text_leb : Text → Text → Bool
text_leb [] _ = true
text_leb (x ∷ xs) [] = false
text_leb (x ∷ xs) (y ∷ ys) = ltb x y || (x == y && text_leb xs ys)

pub text_leb_total : (a b : Text) → text_leb a b ≡ false → text_leb b a ≡ true
unfolding text_leb
text_leb_total [] b h = cc
text_leb_total (x ∷ a) [] h = refl
text_leb_total (x ∷ a) (y ∷ b) h = ground (arith, text_leb_total a b)

unfoldable pub insert : Text → List Text → List Text
insert x [] = x ∷ []
insert x (y ∷ ys) = if text_leb x y then x ∷ y ∷ ys else y ∷ insert x ys

-- `sort.Strings`
unfoldable pub sort_strings : List Text → List Text
unfolding insert
sort_strings [] = []
sort_strings (x ∷ xs) = insert x (sort_strings xs)

-- A key of a Go set or map: `_, ok := m[k]`
unfoldable pub contains : Text → List Text → Bool
unfolding text_eq
contains k [] = false
contains k (x ∷ xs) = text_eq k x || contains k xs

pub contains-append :
    (k : Text) (xs ys : List Text) → contains k (xs ++ ys) ≡ (contains k xs || contains k ys)
unfolding contains
contains-append k [] ys = refl
contains-append k (x ∷ xs) ys = ground (arith, contains-append k xs ys)

pub contains-insert :
    (k x : Text) (xs : List Text) → contains k (insert x xs) ≡ (text_eq k x || contains k xs)
unfolding contains insert
contains-insert k x [] = refl
contains-insert k x (y ∷ ys) = ground (arith, contains-insert k x ys)

pub contains-sort_strings :
    (k : Text) (xs : List Text) → contains k (sort_strings xs) ≡ contains k xs
unfolding contains sort_strings
contains-sort_strings k [] = refl
contains-sort_strings k (x ∷ xs) =
    contains-insert k x (sort_strings xs) ∙ ap (text_eq k x ||◌) (contains-sort_strings k xs)

length-insert : (x : Text) (xs : List Text) → length (insert x xs) ≡ suc (length xs)
unfolding insert
length-insert x [] = refl
length-insert x (y ∷ ys) = ground (arith, length-insert x ys)

pub length-sort_strings : (xs : List Text) → length (sort_strings xs) ≡ length xs
unfolding sort_strings
length-sort_strings [] = refl
length-sort_strings (x ∷ xs) = length-insert x (sort_strings xs) ∙ ap suc (length-sort_strings xs)

-- Sorted: each string is at most the next.
abbrev pub IsSorted : List Text → Type 0
IsSorted [] = Unit {0}
IsSorted (x ∷ []) = Unit {0}
IsSorted (x ∷ y ∷ ys) = (text_leb x y ≡ true) × IsSorted (y ∷ ys)

insert-IsSorted : (x : Text) (xs : List Text) → IsSorted xs → IsSorted (insert x xs)
unfolding insert
insert-IsSorted x [] s = tt
insert-IsSorted x (y ∷ []) s = ground (arith, text_leb_total x y)
insert-IsSorted x (y ∷ z ∷ zs) s =
    ground (arith, text_leb_total x y, insert-IsSorted x (z ∷ zs) s.1)

pub sort_strings-IsSorted : (xs : List Text) → IsSorted (sort_strings xs)
unfolding sort_strings
sort_strings-IsSorted [] = tt
sort_strings-IsSorted (x ∷ xs) = insert-IsSorted x (sort_strings xs) (sort_strings-IsSorted xs)
