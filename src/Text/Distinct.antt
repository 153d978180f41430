-- ===== src/Text/Distinct.antt =====
-- Lists with no text twice.
use savk.Base.{◌≡◌, refl, ◌∙◌, true, false, not, List, [], ◌∷◌, ◌++◌, every, arith}
use savk.Text.{Text, text_eq_iff}
use savk.Text.Order.{
  contains, contains-append, insert, contains-insert, sort_strings, contains-sort_strings,
}

-- No text comes twice.
abbrev pub IsDistinct : List Text → Type 0
IsDistinct [] = Unit {0}
IsDistinct (x ∷ xs) = (contains x xs ≡ false) × IsDistinct xs

pub IsDistinct-concat :
    (xs : List Text) (x : Text)
    → IsDistinct xs
    → contains x xs ≡ false
    → IsDistinct (xs ++ (x ∷ []))
unfolding contains
IsDistinct-concat [] x d h = (refl, tt)
IsDistinct-concat (y ∷ ys) x d h = (
  ground (arith, contains-append y ys (x ∷ []), text_eq_iff y x, text_eq_iff x y, d.0),
  IsDistinct-concat ys x d.1 (ground arith),
)

pub IsDistinct-append :
    (xs ys : List Text)
    → IsDistinct xs
    → IsDistinct ys
    → every (λ x. not (contains x ys)) xs ≡ true
    → IsDistinct (xs ++ ys)
IsDistinct-append [] ys dx dy apart = dy
IsDistinct-append (x ∷ xs) ys dx dy apart =
    (ground (arith, contains-append x xs ys, dx.0), IsDistinct-append xs ys dx.1 dy (ground arith))

insert-IsDistinct :
    (x : Text) (xs : List Text) → IsDistinct xs → contains x xs ≡ false → IsDistinct (insert x xs)
unfolding insert contains
insert-IsDistinct x [] d new = (refl, tt)
insert-IsDistinct x (y ∷ ys) d new =
    ground
      (arith, contains-insert y x ys, insert-IsDistinct x ys d.1, text_eq_iff x y, text_eq_iff y x)

pub sort_strings-IsDistinct : (xs : List Text) → IsDistinct xs → IsDistinct (sort_strings xs)
unfolding sort_strings
sort_strings-IsDistinct [] d = tt
sort_strings-IsDistinct (x ∷ xs) d =
    insert-IsDistinct x (sort_strings xs) (sort_strings-IsDistinct xs d.1)
      (contains-sort_strings x xs ∙ d.0)
