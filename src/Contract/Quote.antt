-- ===== src/Contract/Quote.antt =====
-- internal/contract/parser.go: quoted strings.
pub mod Ends
pub mod Quoting
pub mod RoundTrip
use savk.Base.{
  ℕ, ◌+◌, ◌%◌, Bool, true, false, not, ◌&&◌, ◌||◌, [], ◌∷◌, Option, none, some, Result, ok, err,
  ◌>>=◌, ◌==◌, if◌then◌else◌,
}
use savk.Text.{Text}
use savk.Text.Ops.{last_byte, drop_last}
use savk.Contract.Node.{ParseError, at_line, unterminated_quote, unsupported_escape}

-- The loop of `escapedByBackslash`, over the bytes before `index`, from the last.
unfoldable pub count_backslashes : Text → ℕ
count_backslashes [] = 0
count_backslashes (c ∷ before) = if c == b'\\' then 1 + count_backslashes before else 0

abbrev pub escaped_by_backslash : Text → Bool
escaped_by_backslash before = count_backslashes before % 2 == 1

-- `validQuotedString` between double quotes: `before` is what has been read, reversed.
unfoldable pub valid_double : Text → Text → Bool
valid_double before [] = true
valid_double before (c ∷ inner) =
    let rest = valid_double (c ∷ before) inner in
    if not (c == b'"') then rest else if not (escaped_by_backslash before) then false else rest

-- `validQuotedString` between single quotes: each quote is doubled.
unfoldable pub valid_single : Text → Bool
valid_single [] = true
valid_single (c ∷ []) = not (c == b'\'')
valid_single (c ∷ d ∷ inner) =
    let rest = valid_single (d ∷ inner) in
    let after = valid_single inner in
    if not (c == b'\'') then rest else if not (d == b'\'') then false else after

-- `strings.ReplaceAll(inner, "''", "'")`
unfoldable pub undouble : Text → Text
undouble [] = []
undouble (c ∷ []) = c ∷ []
undouble (c ∷ d ∷ inner) =
    let rest = undouble (d ∷ inner) in
    let after = undouble inner in if c == b'\'' && d == b'\'' then b'\'' ∷ after else c ∷ rest

-- The byte that an escape stands for.
unfoldable pub unescape : ℕ → Option ℕ
unescape c =
    if c == b'"' || c == b'\\'
    then some c
    else if c == b'n'
    then some b'\n'
    else if c == b'r'
    then some b'\r'
    else if c == b't'
    then some b'\t'
    else none

-- `decodeDoubleQuotedString`
unfoldable pub decode_double : Text → ℕ → Result ParseError Text
decode_double [] line = ok []
decode_double (c ∷ []) line =
    if not (c == b'\\') then ok (c ∷ []) else err (at_line unterminated_quote line)
decode_double (c ∷ d ∷ raw) line =
    let rest = decode_double (d ∷ raw) line in
    let after = decode_double raw line in
    if not (c == b'\\') then (rest >>= λ s. ok (c ∷ s)) else (elim (unescape d) [
      | none ↦ err (at_line (unsupported_escape d) line)
      | some e ↦ after >>= λ s. ok (e ∷ s)
    ])

-- `parseQuotedString`: the text, and whether it was quoted. The second test of the source for a
-- quote at the front cannot be reached.
unfoldable pub parse_quoted : Text → ℕ → Result ParseError (Text × Bool)
parse_quoted [] line = ok ([], false)
parse_quoted (c ∷ s) line =
    let inner = drop_last s in
    let last = last_byte s in
    if c == b'"'
    then (elim last [
      | none ↦ err (at_line unterminated_quote line)
      | some e ↦
          if e == b'"' && valid_double (b'"' ∷ []) inner
          then (decode_double inner line >>= λ t. ok (t, true))
          else err (at_line unterminated_quote line)
    ])
    else if c == b'\''
    then (elim last [
      | none ↦ err (at_line unterminated_quote line)
      | some e ↦
          if e == b'\'' && valid_single inner
          then ok (undouble inner, true)
          else err (at_line unterminated_quote line)
    ])
    else (elim (last_byte (c ∷ s)) [
      | none ↦ ok (c ∷ s, false)
      | some e ↦
          if e == b'"' || e == b'\''
          then err (at_line unterminated_quote line)
          else ok (c ∷ s, false)
    ])
