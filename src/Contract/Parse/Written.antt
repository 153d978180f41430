-- ===== src/Contract/Parse/Written.antt =====
-- internal/contract/parser.go: `tokenize` gives the lines of a mapping that is written in quotes.
pub mod Read
pub mod Repeated
use savk.Base.{
  ℕ, zero, suc, ◌+◌, ◌-◌, ◌<◌, ◌≡◌, refl, Bool, true, false, not, ◌||◌, ◌&&◌, List, [], ◌∷◌, ◌++◌,
  Option, none, some, Result, ok, err, ◌>>=◌, ◌==◌, arith, ◌∙◌, ap, sym, length, drop, map,
}
use savk.Text.{Text, codes, text_eq, text_eq_iff}
use savk.Text.Ops.{has_prefix, contains_byte, split, trim_left, trim_suffix, split_first}
use savk.Text.Order.{contains}
use savk.Text.Distinct.{IsDistinct}
use savk.Text.Space.{trim_space, skip_space}
use savk.Text.Split.{is_free, is_free-append, split-line}
use savk.Contract.Node.{
  SourceLine, Node, string, mapping, Entries, end, entry, lookup_entry, add_entry, ParseError,
  at_line, duplicate_key,
}
use savk.Contract.Lines.{tokenize_line, tokenize_from, tokenize, has_inline_comment}
use savk.Contract.Block.{Lines, is_item, read_entry, parse_map}
use savk.Contract.Parse.{parse_root, root_entries}
use savk.Contract.Scalar.{split_key_value, parse_inline_value}
use savk.Contract.Scalar.RoundTrip.{
  trim_space-marks, double_mark, written_pair, split_key_value-written_pair,
}
use savk.Contract.Quote.Quoting.{escape_byte, escaped, double, quote}
use mathlib.Core.List.{append_assoc}

-- A key and a value, between double quotes, as a line.
abbrev pub line_of : Text × Text → Text
line_of (key, value) = written_pair double key double value

-- Keys and values as the lines of a mapping.
unfoldable pub written_mapping : List (Text × Text) → Text
written_mapping [] = []
written_mapping (p ∷ ps) = (line_of p ++ (b'\n' ∷ [])) ++ written_mapping ps

unfoldable pub source_line : ℕ → Text × Text → SourceLine
source_line line p = record { number = line; indent = 0; content = line_of p }

unfoldable pub source_lines : ℕ → List (Text × Text) → Lines
source_lines line [] = []
source_lines line (p ∷ ps) = source_line line p ∷ source_lines (line + 1) ps

-- A text between double quotes.
abbrev pub between : Text → Text
between s = b'"' ∷ (s ++ (b'"' ∷ []))

unfoldable pub inner : Text × Text → Text
inner (key, value) = (escaped key ++ (b'"' ∷ [])) ++ (b':' ∷ b' ' ∷ b'"' ∷ escaped value)

pub line_of-between : (p : Text × Text) → line_of p ≡ between (inner p)
unfolding written_pair quote inner
line_of-between (key, value) = sym (
    ap (◌∷◌ b'"')
      (append_assoc (escaped key ++ (b'"' ∷ [])) (b':' ∷ b' ' ∷ b'"' ∷ escaped value) (b'"' ∷ [])))

trim_suffix-between :
    (s : Text) (b e : ℕ) → (e == b) ≡ false → trim_suffix (s ++ (e ∷ [])) b ≡ s ++ (e ∷ [])
unfolding trim_suffix
trim_suffix-between [] b e h = rw h refl
trim_suffix-between (c ∷ []) b e h = rw h refl
trim_suffix-between (c ∷ d ∷ s) b e h = ap (◌∷◌ c) (trim_suffix-between (d ∷ s) b e h)

-- Lines and tabs are written as escapes.
is_free-escape_byte :
    (c b : ℕ) → (b == b'\n' || b == b'\t') ≡ true → is_free b (escape_byte c) ≡ true
unfolding is_free contains_byte escape_byte
is_free-escape_byte c b h = ground arith

is_free-escaped :
    (s : Text) (b : ℕ) → (b == b'\n' || b == b'\t') ≡ true → is_free b (escaped s) ≡ true
unfolding escaped
is_free-escaped [] b h = unfold is_free contains_byte in refl
is_free-escaped (c ∷ s) b h = ground (
  arith,
  is_free-append b (escape_byte c) (escaped s),
  is_free-escape_byte c b,
  is_free-escaped s b,
)

is_free-cons : (c b : ℕ) (s : Text) → is_free b (c ∷ s) ≡ (not (c == b) && is_free b s)
unfolding is_free contains_byte
is_free-cons c b s = ground arith

is_free-quote :
    (s : Text) (b : ℕ) → (b == b'\n' || b == b'\t') ≡ true → is_free b (quote double s) ≡ true
unfolding quote
is_free-quote s b h = ground (
  arith,
  is_free-cons b'"' b (escaped s ++ (b'"' ∷ [])),
  is_free-append b (escaped s) (b'"' ∷ []),
  is_free-escaped s b,
  is_free-cons b'"' b [],
  nothing,
)
  where
    nothing : is_free b [] ≡ true
    nothing = unfold is_free contains_byte in refl

is_free-line_of :
    (p : Text × Text) (b : ℕ) → (b == b'\n' || b == b'\t') ≡ true → is_free b (line_of p) ≡ true
unfolding written_pair
is_free-line_of (key, value) b h =
    let rest = quote double value in
    ground (
      arith,
      is_free-append b (quote double key) (b':' ∷ b' ' ∷ rest),
      is_free-quote key b,
      is_free-cons b':' b (b' ' ∷ rest),
      is_free-cons b' ' b rest,
      is_free-quote value b,
    )

-- A line in quotes is kept by `tokenize`, as it is.
tokenize_line-between :
    (line : ℕ) (s : Text)
    → contains_byte (between s) b'\t' ≡ false
    → has_inline_comment (between s) ≡ false
    → tokenize_line line (between s)
      ≡ ok (record { number = line; indent = 0; content = between s } ∷ [])
unfolding tokenize_line
tokenize_line-between line s no_tab no_comment =
    rw
      (
        trim_suffix-between (b'"' ∷ s) b'\r' b'"' refl,
        trim_space-marks b'"' s double_mark,
        no_tab,
        indent,
        no_comment,
      )
      (unfold text_eq has_prefix codes in refl)
  where
    indent : length (between s) - length (trim_left (between s) b' ') ≡ 0
    indent = unfold trim_left in omega arith

tokenize_line-line_of :
    (line : ℕ) (p : Text × Text) → tokenize_line line (line_of p) ≡ ok (source_line line p ∷ [])
unfolding source_line
tokenize_line-line_of line p =
    let no_tab : contains_byte (between (inner p)) b'\t' ≡ false =
      rw (← line_of-between p) (unfold is_free in ground (arith, is_free-line_of p b'\t')) in
    let no_comment : has_inline_comment (between (inner p)) ≡ false =
      rw (← line_of-between p) (split_key_value-written_pair double double p.0 p.1 line).0 in
    rw (line_of-between p) (tokenize_line-between line (inner p) no_tab no_comment)

pub tokenize_from-lines :
    (line : ℕ) (ps : List (Text × Text))
    → tokenize_from line (split (written_mapping ps) b'\n') ≡ ok (source_lines line ps)
unfolding tokenize_from written_mapping source_lines
tokenize_from-lines line [] =
    unfold split split_first tokenize_line trim_suffix trim_space skip_space trim_left contains_byte
      text_eq in
    refl
tokenize_from-lines line (p ∷ ps) =
    let rest = tokenize_from-lines (line + 1) ps in
    let free = is_free-line_of p b'\n' refl in
    rw (split-line (line_of p) (written_mapping ps) b'\n' free, tokenize_line-line_of line p, rest)
      refl
