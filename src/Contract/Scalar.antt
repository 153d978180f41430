-- ===== src/Contract/Scalar.antt =====
-- internal/contract/parser.go: the values and keys of one line.
pub mod Covered
pub mod RoundTrip
use savk.Base.{
  ℕ, Bool, true, false, not, ◌&&◌, ◌||◌, [], ◌∷◌, reverse, none, some, Result, ok, err, ◌>>=◌, ◌==◌,
  if◌then◌else◌,
}
use savk.Text.{Text, text_eq, codes}
use savk.Text.Space.{trim_space}
use savk.Text.Ops.{has_prefix}
use savk.Text.Number.{atoi}
use savk.Contract.Node.{
  Node, list, string, int, bool, nil, ParseError, at_line, multiline_string, flow_style, anchor,
  alias, tag, merge_key, empty_key, colon_in_key, unterminated_quote, expected_pair,
}
use savk.Contract.Lines.{Quotes, unquoted, quote_step}
use savk.Contract.Quote.{parse_quoted}

-- `rejectUnsupportedScalarFeature`
unfoldable pub reject_scalar_feature : Text → ℕ → Result ParseError (Unit {0})
reject_scalar_feature raw line =
    if has_prefix raw (codes "&")
    then err (at_line anchor line)
    else if has_prefix raw (codes "*")
    then err (at_line alias line)
    else if has_prefix raw (codes "!")
    then err (at_line tag line)
    else ok tt

-- `rejectUnsupportedKeyFeature`
unfoldable pub reject_key_feature : Text → ℕ → Result ParseError (Unit {0})
reject_key_feature key line =
    if text_eq key (codes "<<")
    then err (at_line merge_key line)
    else reject_scalar_feature key line

-- A value with no quotes.
unfoldable pub plain_value : Text → ℕ → Node
plain_value raw line =
    if text_eq raw (codes "true")
    then bool line true
    else if text_eq raw (codes "false")
    then bool line false
    else elim (atoi raw) [ none ↦ string line raw | some n ↦ int line n ]

-- A value with quotes has the text between them, any other is read by `plain_value`.
abbrev value_node : Text → ℕ → Text × Bool → Node
value_node raw line (s, true) = string line s
value_node raw line (s, false) = plain_value raw line

-- `parseInlineValue`
unfoldable pub parse_inline_value : Text → ℕ → Result ParseError Node
parse_inline_value raw line =
    if text_eq raw (codes "[]")
    then ok (list line nil)
    else if text_eq raw (codes "|") || text_eq raw (codes ">")
    then err (at_line multiline_string line)
    else if has_prefix raw (codes "[") || has_prefix raw (codes "{")
    then err (at_line flow_style line)
    else if has_prefix raw (codes "|") || has_prefix raw (codes ">")
    then err (at_line multiline_string line)
    else do
      _ ← reject_scalar_feature raw line
      value ← parse_quoted raw line
      ok (value_node raw line value)

-- What `keyValueDelimiter` finds: the text before and after the colon and whether a plain colon
-- stands before it, or that there is no delimiter.
pub data Delimiter : Type 0 where
  found : Text → Text → Bool → Delimiter
  missing : Delimiter

-- `i+1 == len(content) || content[i+1] == ' '`
abbrev pub ends_key : Text → Bool
ends_key [] = true
ends_key (c ∷ s) = c == b' '

-- `keyValueDelimiter`; `before` is what has been read, reversed.
unfoldable pub delimiter_from : Text → Quotes → Bool → Text → ℕ → Result ParseError Delimiter
delimiter_from before q saw [] line =
    if q.in_single || q.in_double then err (at_line unterminated_quote line) else ok missing
delimiter_from before q saw (c ∷ s) line =
    let plain = c == b':' && not (q.in_single || q.in_double) in
    let rest = delimiter_from (c ∷ before) (quote_step q c) (saw || plain) s line in
    if plain && ends_key s then ok (found (reverse before) s saw) else rest

-- What `splitKeyValue` asks of a key: nothing, if it was quoted.
unfoldable pub check_key : Bool → ℕ → Text × Bool → Result ParseError Text
check_key saw line (key, true) = ok key
check_key saw line (key, false) =
    if saw then err (at_line colon_in_key line) else (reject_key_feature key line >>= λ _. ok key)

-- The key of a pair, from the text before the delimiter.
unfoldable pub read_key : Text → Bool → ℕ → Result ParseError Text
read_key before saw line =
    let raw_key = trim_space before in
    if text_eq raw_key []
    then err (at_line empty_key line)
    else (parse_quoted raw_key line >>= check_key saw line)

-- The key and the value at a delimiter.
unfoldable pub delimiter_pair : ℕ → Delimiter → Result ParseError (Text × Text)
delimiter_pair line missing = err (at_line expected_pair line)
delimiter_pair line (found before after saw) =
    read_key before saw line >>= λ key. ok (key, trim_space after)

-- `splitKeyValue`
unfoldable pub split_key_value : Text → ℕ → Result ParseError (Text × Text)
split_key_value content line = delimiter_from [] unquoted false content line >>= delimiter_pair line
