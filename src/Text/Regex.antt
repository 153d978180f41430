-- ===== src/Text/Regex.antt =====
-- `regexp`: the matching of an expression at a place of a text, where a match is preferred as a
-- backtracking search prefers it. Texts are bytes, so a class of an expression is one of bytes, with
-- the runes above ASCII that it holds written out.
pub mod Star
use savk.Base.{
  ℕ, zero, suc, ◌-◌, ◌==◌, Bool, true, false, not, ◌||◌, ◌&&◌, List, [], ◌∷◌, ◌++◌, Option, none,
  some, leb, length, if◌then◌else◌,
}
use savk.Text.{Text, codes}

-- A place in a text: the byte in front of it and the text behind it.
pub record Cursor : Type 0 where
  pub prev : Option ℕ
  pub rest : Text

pub data Regex : Type 0 where
  empty boundary : Regex
  one_of : (ℕ → Bool) → Regex
  seq alt : Regex → Regex → Regex
  star : Regex → Regex

-- `[0-9A-Za-z_]`
unfoldable pub is_word_byte : ℕ → Bool
is_word_byte c =
    leb b'0' c && leb c b'9'
    || (leb b'A' c && leb c b'Z' || (leb b'a' c && leb c b'z' || c == b'_'))

unfoldable pub is_word_prev : Option ℕ → Bool
unfolding is_word_byte
is_word_prev none = false
is_word_prev (some c) = is_word_byte c

unfoldable pub is_word_next : Text → Bool
unfolding is_word_byte
is_word_next [] = false
is_word_next (c ∷ s) = is_word_byte c

-- `\b`
unfoldable pub at_boundary : Cursor → Bool
unfolding is_word_prev is_word_next
at_boundary p = if is_word_prev p.prev then not (is_word_next p.rest) else is_word_next p.rest

-- Greedy repetition; as much fuel as there is text is enough, since no repeated expression matches
-- the empty text.
unfoldable pub star_at {ℓ} :
    {A : Type ℓ}
    → ℕ
    → (Cursor → (Cursor → Option A) → Option A)
    → Cursor
    → (Cursor → Option A)
    → Option A
star_at zero step p k = k p
star_at (suc n) step p k = elim (step p (λ q. star_at n step q k)) [ some a ↦ some a | none ↦ k p ]

-- One byte of a class.
unfoldable pub byte_at {ℓ} : {A : Type ℓ} → (ℕ → Bool) → Text → (Cursor → Option A) → Option A
byte_at test [] k = none
byte_at test (c ∷ s) k = if test c then k (record { prev = some c; rest = s }) else none

-- The first match of the expression at a place, behind which `k` goes on.
unfoldable pub match_at {ℓ} : {A : Type ℓ} → Regex → Cursor → (Cursor → Option A) → Option A
unfolding star_at byte_at at_boundary
match_at empty p k = k p
match_at boundary p k = if at_boundary p then k p else none
match_at (one_of test) p k = byte_at test p.rest k
match_at (seq r s) p k = match_at r p (λ q. match_at s q k)
match_at (alt r s) p k = elim (match_at r p k) [ some a ↦ some a | none ↦ match_at s p k ]
match_at (star r) p k = star_at (length p.rest) (match_at r) p k

-- `r+`, `r?`, and the bytes of a text, one by one.
abbrev pub plus : Regex → Regex
plus r = seq r (star r)

abbrev pub optional : Regex → Regex
optional r = alt r empty

unfoldable pub literal : Text → Regex
literal [] = empty
literal (c ∷ s) = seq (one_of (λ d. d == c)) (literal s)

-- A small letter under `(?i)`: the long s and the sign for Kelvin are folded to s and k.
unfoldable pub letter : ℕ → Regex
unfolding literal
letter c =
    let both = one_of (λ d. d == c || d == c - 32) in
    if c == b's'
    then alt both (literal (0xc5 ∷ 0xbf ∷ []))
    else if c == b'k'
    then alt both (literal (0xe2 ∷ 0x84 ∷ 0xaa ∷ []))
    else both

-- A word of small letters under `(?i)`.
unfoldable pub word : Text → Regex
unfolding letter
word [] = empty
word (c ∷ s) = seq (letter c) (word s)

-- A class that holds the letters, under `(?i)`.
unfoldable pub folded_class : (ℕ → Bool) → Regex
unfolding literal
folded_class test =
    alt (one_of test) (alt (literal (0xc5 ∷ 0xbf ∷ [])) (literal (0xe2 ∷ 0x84 ∷ 0xaa ∷ [])))

-- `\s`
unfoldable pub is_space : ℕ → Bool
is_space c = c == b' ' || (c == b'\t' || (c == b'\n' || (c == 12 || c == b'\r')))

unfoldable pub is_alphanumeric : ℕ → Bool
is_alphanumeric c =
    leb b'0' c && leb c b'9' || (leb b'A' c && leb c b'Z' || leb b'a' c && leb c b'z')
