-- ===== src/Text/Number.antt =====
-- `strconv`: decimal texts of integers, and the parsers of integers of 64 bits or fewer.
use savk.Base.{
  ℕ, zero, suc, ◌+◌, ◌-◌, ◌*◌, ◌/◌, ◌%◌, ◌^◌, ◌&&◌, [], ◌∷◌, Option, none, some, ltb, leb, ◌==◌,
  if◌then◌else◌,
}
use savk.Base.Int.{ℤ, pos, negsuc, neg}
use savk.Text.{Text}

-- The digits of a number in front of `rest`. With as much fuel as the number, none is lost.
unfoldable pub digits_onto : ℕ → ℕ → ℕ → Text → Text
digits_onto base zero n rest = (b'0' + n % base) ∷ rest
digits_onto base (suc fuel) n rest =
    let more = digits_onto base fuel (n / base) ((b'0' + n % base) ∷ rest) in
    if ltb n base then (b'0' + n) ∷ rest else more

-- `strconv.Itoa` of a number that is not negative: twenty digits hold 64 bits.
unfoldable pub decimal : ℕ → Text
unfolding digits_onto
decimal n = digits_onto 10 20 n []

-- `strconv.Itoa`
unfoldable pub itoa : ℤ → Text
unfolding decimal
itoa (pos n) = decimal n
itoa (negsuc n) = b'-' ∷ decimal (1 + n)

-- The value of a digit, `base` being 10 or 16.
unfoldable pub digit_value : ℕ → ℕ → Option ℕ
digit_value base c =
    if leb b'0' c && leb c b'9'
    then some (c - b'0')
    else if base == 16 && leb b'a' c && leb c b'f'
    then some (c - b'a' + 10)
    else if base == 16 && leb b'A' c && leb c b'F'
    then some (c - b'A' + 10)
    else none

unfoldable pub parse_digits : ℕ → ℕ → Text → Option ℕ
unfolding digit_value
parse_digits base acc [] = some acc
parse_digits base acc (c ∷ s) = elim (digit_value base c) [
  | none ↦ none
  | some d ↦ parse_digits base (acc * base + d) s
]

-- `strconv.ParseUint(s, base, bits)`: none for a syntax error or a value out of range.
unfoldable pub parse_uint : ℕ → ℕ → Text → Option ℕ
unfolding parse_digits
parse_uint base bits [] = none
parse_uint base bits (c ∷ s) = elim (parse_digits base 0 (c ∷ s)) [
  | none ↦ none
  | some n ↦ if ltb n (2 ^ bits) then some n else none
]

-- `strconv.Atoi`, with integers of 64 bits
unfoldable pub atoi : Text → Option ℤ
unfolding parse_digits
atoi [] = none
atoi (c ∷ s) =
    if c == b'-'
    then (elim s [
      | [] ↦ none
      | d ∷ t ↦ elim (parse_digits 10 0 (d ∷ t)) [
        | none ↦ none
        | some n ↦ if leb n (2 ^ 63) then some (neg n) else none
      ]
    ])
    else if c == b'+'
    then (elim s [
      | [] ↦ none
      | d ∷ t ↦ elim (parse_digits 10 0 (d ∷ t)) [
        | none ↦ none
        | some n ↦ if ltb n (2 ^ 63) then some (pos n) else none
      ]
    ])
    else (elim (parse_digits 10 0 (c ∷ s)) [
      | none ↦ none
      | some n ↦ if ltb n (2 ^ 63) then some (pos n) else none
    ])
