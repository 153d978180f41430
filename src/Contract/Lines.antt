-- ===== src/Contract/Lines.antt =====
-- internal/contract/parser.go: `tokenize`, and the scan for inline comments.
use savk.Base.{
  ℕ, ◌+◌, ◌-◌, Bool, true, false, not, ◌&&◌, ◌||◌, List, [], ◌∷◌, ◌++◌, Result, ok, err, ◌>>=◌,
  ◌==◌, if◌then◌else◌, length, drop,
}
use savk.Text.{Text, text_eq, codes}
use savk.Text.Space.{trim_space}
use savk.Text.Ops.{has_prefix, contains_byte, split, trim_left, trim_suffix}
use savk.Contract.Node.{
  SourceLine, ParseError, at_line, tab_indentation, multiple_documents, inline_comment,
}

-- The variables of the two scans over a line.
pub record Quotes : Type 0 where
  pub in_single : Bool
  pub in_double : Bool
  pub escaped : Bool

abbrev pub unquoted : Quotes
unquoted = record { in_single = false; in_double = false; escaped = false }

-- The cases of a backslash and of the quotes, and the default case.
unfoldable pub quote_step : Quotes → ℕ → Quotes
quote_step q c =
    if c == b'\\'
    then record q { escaped = q.in_double && not q.escaped }
    else if c == b'\''
    then record q {
      in_single = (if q.in_double then q.in_single else not q.in_single);
      escaped = false;
    }
    else if c == b'"'
    then (if not q.in_single && not q.escaped
        then record q { in_double = not q.in_double }
        else record q { escaped = false })
    else record q { escaped = false }

-- `hasUnsupportedInlineComment`; the flag says that the byte before is a space.
unfoldable pub comment_from : Bool → Quotes → Text → Bool
comment_from after_space q [] = false
comment_from after_space q (c ∷ s) =
    let rest = comment_from (c == b' ') (quote_step q c) s in
    if c == b'#' && not q.in_single && not q.in_double && after_space then true else rest

unfoldable pub has_inline_comment : Text → Bool
has_inline_comment = comment_from false unquoted

-- The body of the loop of `tokenize`: the line, if it is kept.
unfoldable pub tokenize_line : ℕ → Text → Result ParseError (List SourceLine)
tokenize_line line_no whole =
    let raw = trim_suffix whole b'\r' in
    let trimmed = trim_space raw in
    let indent = length raw - length (trim_left raw b' ') in
    let content = drop indent raw in
    if contains_byte raw b'\t'
    then err (at_line tab_indentation line_no)
    else if text_eq trimmed [] || has_prefix trimmed (codes "#")
    then ok []
    else if text_eq trimmed (codes "---") || text_eq trimmed (codes "...")
    then err (at_line multiple_documents line_no)
    else if has_inline_comment content
    then err (at_line inline_comment line_no)
    else ok (record { number = line_no; indent = indent; content = content } ∷ [])

unfoldable pub tokenize_from : ℕ → List Text → Result ParseError (List SourceLine)
tokenize_from line_no [] = ok []
tokenize_from line_no (raw ∷ raws) = do
  kept ← tokenize_line line_no raw
  lines ← tokenize_from (line_no + 1) raws
  ok (kept ++ lines)

-- `tokenize`
unfoldable pub tokenize : Text → Result ParseError (List SourceLine)
tokenize input = tokenize_from 1 (split input b'\n')
