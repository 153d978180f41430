-- ===== src/Text/Space.antt =====
-- `strings.TrimSpace` and `strings.Fields`: white space is that of Unicode, in UTF-8.
use savk.Base.{
  ℕ, zero, suc, Bool, true, false, ◌&&◌, ◌||◌, List, [], ◌∷◌, ◌++◌, reverse, leb, ◌==◌,
  if◌then◌else◌, Option, none, some, is_empty,
}
use savk.Text.{Text}

-- The white space of one byte.
unfoldable pub is_space_byte : ℕ → Bool
is_space_byte c = c == b' ' || (leb 9 c && leb c 13)

abbrev is_space_2 : ℕ → ℕ → Bool
is_space_2 a b = a == 0xc2 && (b == 0x85 || b == 0xa0)

abbrev is_space_3 : ℕ → ℕ → ℕ → Bool
is_space_3 a b c =
    (a == 0xe1 && b == 0x9a && c == 0x80)
    || (a == 0xe2
        && b == 0x80
        && ((leb 0x80 c && leb c 0x8a) || c == 0xa8 || c == 0xa9 || c == 0xaf))
    || (a == 0xe2 && b == 0x81 && c == 0x9f)
    || (a == 0xe3 && b == 0x80 && c == 0x80)

-- The bytes behind the first of a white space at the front; with the bytes reversed, at the end.
unfoldable pub space_tail : Bool → ℕ → Text → Option ℕ
unfolding is_space_byte
space_tail back a [] = if is_space_byte a then some 0 else none
space_tail back a (b ∷ []) =
    if is_space_byte a
    then some 0
    else if (if back then is_space_2 b a else is_space_2 a b)
    then some 1
    else none
space_tail back a (b ∷ c ∷ _) =
    if is_space_byte a
    then some 0
    else if (if back then is_space_2 b a else is_space_2 a b)
    then some 1
    else if (if back then is_space_3 c b a else is_space_3 a b c)
    then some 2
    else none

-- Takes white space off the front; the number says how many bytes of one are still to go.
unfoldable pub skip_space : Bool → ℕ → Text → Text
unfolding space_tail
skip_space back n [] = []
skip_space back (suc n) (a ∷ s) = skip_space back n s
skip_space back zero (a ∷ s) = elim (space_tail back a s) [
  | none ↦ a ∷ s
  | some n ↦ skip_space back n s
]

unfoldable pub trim_space : Text → Text
unfolding skip_space
trim_space s = reverse (skip_space true 0 (reverse (skip_space false 0 s)))

-- `strings.TrimSpace(s) == ""`
abbrev pub is_blank : Text → Bool
is_blank s = elim (trim_space s) [ [] ↦ true | _ ∷ _ ↦ false ]

-- The pieces of `strings.Fields`; `piece` is the piece at hand, and the number says how many bytes of
-- a white space are still to go.
unfoldable pub fields_onto : Text → ℕ → Text → List Text
unfolding space_tail
fields_onto piece n [] = if is_empty piece then [] else piece ∷ []
fields_onto piece (suc n) (a ∷ s) = fields_onto piece n s
fields_onto piece zero (a ∷ s) =
    let more = fields_onto (piece ++ (a ∷ [])) 0 s in
    elim (space_tail false a s) [
      | none ↦ more
      | some n ↦ let rest = fields_onto [] n s in if is_empty piece then rest else piece ∷ rest
    ]

-- `strings.Fields`
unfoldable pub fields : Text → List Text
unfolding fields_onto
fields s = fields_onto [] 0 s
