-- ===== src/Contract/Quote/RoundTrip.antt =====
-- internal/contract/parser.go: `parseQuotedString` undoes the writing in quotes.
use savk.Base.{ℕ, ◌%◌, ◌≡◌, refl, true, false, [], ◌∷◌, ok, ◌>>=◌, ◌==◌, arith}
use savk.Text.{Text}
use savk.Contract.Quote.{
  count_backslashes, escaped_by_backslash, valid_double, valid_single, undouble, decode_double,
  parse_quoted,
}
use savk.Contract.Quote.Ends.{last_byte-append, drop_last-append}
use savk.Contract.Quote.Quoting.{
  escaped, doubled, Quoting, double, single, quote, plain, backslashed, EscapeByte-cases, once,
  twice, DoubleByte-cases,
}

-- The backslashes before a byte: an even number of them, as if there were none.
abbrev Even : Text → Type 0
Even before = count_backslashes before % 2 ≡ 0

Even-plain : (before : Text) (c : ℕ) → (c == b'\\') ≡ false → Even (c ∷ before)
unfolding count_backslashes
Even-plain before c h = rw h refl

Even-backslashed : (before : Text) (e : ℕ) → Even before → Even (e ∷ b'\\' ∷ before)
unfolding count_backslashes
Even-backslashed before e h = ground arith

backslash_odd : (before : Text) → Even before → escaped_by_backslash (b'\\' ∷ before) ≡ true
unfolding count_backslashes
backslash_odd before h = ground arith

-- Behind an even number of backslashes, a text with escapes has no quote that would end it.
valid_double-escaped : (before s : Text) → Even before → valid_double before (escaped s) ≡ true
unfolding valid_double escaped
valid_double-escaped before [] h = refl
valid_double-escaped before (c ∷ s) h = elim (EscapeByte-cases c) [
  | plain written other unquoted ↦
      let rest = valid_double-escaped (c ∷ before) s (Even-plain before c other) in
      rw (written, rest) (ground arith)
  | backslashed e written back ↦
      let rest = valid_double-escaped (e ∷ b'\\' ∷ before) s (Even-backslashed before e h) in
      rw (written, rest, backslash_odd before h) (ground arith)
]

decode_double-plain :
    (c : ℕ) (s : Text) (line : ℕ)
    → (c == b'\\') ≡ false
    → decode_double (c ∷ s) line ≡ (decode_double s line >>= λ t. ok (c ∷ t))
unfolding decode_double
decode_double-plain c [] line h = rw h refl
decode_double-plain c (d ∷ s) line h = rw h refl

decode_double-escaped : (s : Text) (line : ℕ) → decode_double (escaped s) line ≡ ok s
unfolding decode_double escaped
decode_double-escaped [] line = refl
decode_double-escaped (c ∷ s) line = elim (EscapeByte-cases c) [
  | plain written other unquoted ↦
      rw (written, decode_double-plain c (escaped s) line other, decode_double-escaped s line) refl
  | backslashed e written back ↦ rw (written, back, decode_double-escaped s line) refl
]

valid_single-once :
    (c : ℕ) (s : Text) → (c == b'\'') ≡ false → valid_single (c ∷ s) ≡ valid_single s
unfolding valid_single
valid_single-once c [] h = rw h refl
valid_single-once c (d ∷ s) h = rw h refl

valid_single-doubled : (s : Text) → valid_single (doubled s) ≡ true
unfolding valid_single doubled
valid_single-doubled [] = refl
valid_single-doubled (c ∷ s) = elim (DoubleByte-cases c) [
  | once written other ↦
      rw (written, valid_single-once c (doubled s) other) (valid_single-doubled s)
  | twice written mark ↦ rw written (valid_single-doubled s)
]

undouble-once : (c : ℕ) (s : Text) → (c == b'\'') ≡ false → undouble (c ∷ s) ≡ c ∷ undouble s
unfolding undouble
undouble-once c [] h = refl
undouble-once c (d ∷ s) h = rw h refl

undouble-doubled : (s : Text) → undouble (doubled s) ≡ s
unfolding undouble doubled
undouble-doubled [] = refl
undouble-doubled (c ∷ s) = elim (DoubleByte-cases c) [
  | once written other ↦ rw (written, undouble-once c (doubled s) other, undouble-doubled s) refl
  | twice written mark ↦ rw (written, undouble-doubled s, mark) refl
]

-- A text that is written in quotes, of either kind, is read back as it was.
pub parse_quoted-quote :
    (q : Quoting) (s : Text) (line : ℕ) → parse_quoted (quote q s) line ≡ ok (s, true)
unfolding parse_quoted quote count_backslashes
parse_quoted-quote double s line =
    rw
      (
        last_byte-append (escaped s) b'"',
        drop_last-append (escaped s) b'"',
        valid_double-escaped (b'"' ∷ []) s refl,
        decode_double-escaped s line,
      )
      refl
parse_quoted-quote single s line =
    rw
      (
        last_byte-append (doubled s) b'\'',
        drop_last-append (doubled s) b'\'',
        valid_single-doubled s,
        undouble-doubled s,
      )
      refl
