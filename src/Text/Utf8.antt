-- ===== src/Text/Utf8.antt =====
-- UTF-8 as Go's `unicode/utf8` reads it.
use savk.Base.{
  ℕ, zero, suc, Bool, true, false, ◌&&◌, [], ◌∷◌, Option, none, some, leb, ltb, ◌==◌, if◌then◌else◌,
}
use savk.Text.{Text}

abbrev pub is_between : ℕ → ℕ → ℕ → Bool
is_between lo hi c = leb lo c && leb c hi

-- A continuation byte.
abbrev pub is_tail : ℕ → Bool
is_tail = is_between 0x80 0xbf

-- The byte after a first byte of three.
abbrev is_second_of_3 : ℕ → ℕ → Bool
is_second_of_3 b c =
    if b == 0xe0
    then is_between 0xa0 0xbf c
    else if b == 0xed
    then is_between 0x80 0x9f c
    else is_tail c

-- The byte after a first byte of four.
abbrev is_second_of_4 : ℕ → ℕ → Bool
is_second_of_4 b c =
    if b == 0xf0
    then is_between 0x90 0xbf c
    else if b == 0xf4
    then is_between 0x80 0x8f c
    else is_tail c

-- The bytes behind the first byte `b` of an encoded rune that stands at the front, or none if no
-- rune stands there.
unfoldable pub tail_width : ℕ → Text → Option ℕ
tail_width b (c ∷ d ∷ e ∷ _) =
    if ltb b 0x80
    then some 0
    else if is_between 0xc2 0xdf b && is_tail c
    then some 1
    else if is_between 0xe0 0xef b && is_second_of_3 b c && is_tail d
    then some 2
    else if is_between 0xf0 0xf4 b && is_second_of_4 b c && is_tail d && is_tail e
    then some 3
    else none
tail_width b (c ∷ d ∷ []) =
    if ltb b 0x80
    then some 0
    else if is_between 0xc2 0xdf b && is_tail c
    then some 1
    else if is_between 0xe0 0xef b && is_second_of_3 b c && is_tail d
    then some 2
    else none
tail_width b (c ∷ []) =
    if ltb b 0x80 then some 0 else if is_between 0xc2 0xdf b && is_tail c then some 1 else none
tail_width b [] = if ltb b 0x80 then some 0 else none

-- `utf8.Valid`; the number says how many bytes of the rune that was read last are still to come.
unfoldable pub valid_from : ℕ → Text → Bool
unfolding tail_width
valid_from n [] = true
valid_from (suc n) (b ∷ s) = valid_from n s
valid_from zero (b ∷ s) = elim (tail_width b s) [ none ↦ false | some n ↦ valid_from n s ]

abbrev pub is_valid_utf8 : Text → Bool
is_valid_utf8 = valid_from 0
