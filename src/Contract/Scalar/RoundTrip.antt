-- ===== src/Contract/Scalar/RoundTrip.antt =====
-- internal/contract/parser.go: `splitKeyValue` and `parseInlineValue` undo the writing of a pair.
use savk.Base.{
  ℕ, ◌≡◌, refl, Bool, true, false, [], ◌∷◌, ◌++◌, none, some, ok, arith, ◌∙◌, ap, sym, reverse,
}
use savk.Text.{Text, codes, text_eq}
use savk.Text.Ops.{has_prefix}
use savk.Text.Space.{trim_space, space_tail, skip_space, is_space_byte}
use savk.Contract.Node.{string}
use savk.Contract.Lines.{unquoted, quote_step, comment_from, has_inline_comment}
use savk.Contract.Scalar.{
  delimiter_from, found, delimiter_pair, check_key, read_key, split_key_value, parse_inline_value,
  reject_scalar_feature,
}
use savk.Contract.Scalar.Covered.{comment_from-Covered, delimiter_from-Covered, quote-Covered}
use savk.Contract.Quote.RoundTrip.{parse_quoted-quote}
use savk.Contract.Quote.Quoting.{Quoting, double, single, quote, escaped, doubled}
use mathlib.Core.List.{append-nil, reverse_aux, reverse_aux-append, reverse-reverse}

-- The byte of a quote is no part of a white space.
pub data IsMark : ℕ → Type 0 where
  double_mark : IsMark b'"'
  single_mark : IsMark b'\''

space_tail-mark : (back : Bool) (m : ℕ) (s : Text) → IsMark m → space_tail back m s ≡ none
unfolding space_tail is_space_byte
space_tail-mark back m [] double_mark = refl
space_tail-mark back m [] single_mark = refl
space_tail-mark true m (a ∷ []) double_mark = ground arith
space_tail-mark true m (a ∷ []) single_mark = ground arith
space_tail-mark false m (a ∷ []) double_mark = refl
space_tail-mark false m (a ∷ []) single_mark = refl
space_tail-mark true m (a ∷ b ∷ s) double_mark = ground arith
space_tail-mark true m (a ∷ b ∷ s) single_mark = ground arith
space_tail-mark false m (a ∷ b ∷ s) double_mark = refl
space_tail-mark false m (a ∷ b ∷ s) single_mark = refl

skip_space-mark : (back : Bool) (m : ℕ) (s : Text) → IsMark m → skip_space back 0 (m ∷ s) ≡ m ∷ s
unfolding skip_space
skip_space-mark back m s h = rw (space_tail-mark back m s h, skip_space) refl

-- `strings.TrimSpace` keeps a text that begins and ends with a quote.
pub trim_space-marks :
    (m : ℕ) (s : Text) → IsMark m → trim_space (m ∷ (s ++ (m ∷ []))) ≡ m ∷ (s ++ (m ∷ []))
unfolding trim_space
trim_space-marks m s h =
    let whole = m ∷ (s ++ (m ∷ [])) in
    let back : reverse whole ≡ m ∷ reverse_aux s (m ∷ []) =
      reverse_aux-append s (m ∷ []) (m ∷ []) in
    rw
      (
        skip_space-mark false m (s ++ (m ∷ [])) h,
        back,
        skip_space-mark true m (reverse_aux s (m ∷ [])) h,
        ← back,
      )
      (reverse-reverse whole)

trim_space-quote : (q : Quoting) (s : Text) → trim_space (quote q s) ≡ quote q s
unfolding quote
trim_space-quote double s = trim_space-marks b'"' (escaped s) double_mark
trim_space-quote single s = trim_space-marks b'\'' (doubled s) single_mark

space_tail-blank : (s : Text) → space_tail false b' ' s ≡ some 0
unfolding space_tail is_space_byte
space_tail-blank [] = refl
space_tail-blank (a ∷ []) = refl
space_tail-blank (a ∷ b ∷ s) = refl

trim_space-blank : (s : Text) → trim_space (b' ' ∷ s) ≡ trim_space s
unfolding trim_space skip_space
trim_space-blank s = rw (space_tail-blank s, skip_space) refl

-- The key of a pair that is written in quotes.
read_key-quote :
    (q : Quoting) (s : Text) (saw : Bool) (line : ℕ) → read_key (quote q s) saw line ≡ ok s
unfolding read_key check_key
read_key-quote q s saw line = rw (trim_space-quote q s, parse_quoted-quote q s line, filled q) refl
  where
    filled : (q : Quoting) → text_eq (quote q s) [] ≡ false
    filled double = unfold quote text_eq in refl
    filled single = unfold quote text_eq in refl

-- A value that is written in quotes is read as a string.
pub parse_inline_value-quote :
    (q : Quoting) (s : Text) (line : ℕ) → parse_inline_value (quote q s) line ≡ ok (string line s)
unfolding parse_inline_value quote text_eq has_prefix codes reject_scalar_feature
parse_inline_value-quote double s line = rw (parse_quoted-quote double s line) refl
parse_inline_value-quote single s line = rw (parse_quoted-quote single s line) refl

-- A pair, as a line of a mapping.
unfoldable pub written_pair : Quoting → Text → Quoting → Text → Text
written_pair q key p value = quote q key ++ (b':' ∷ b' ' ∷ quote p value)

comment_from-pair :
    (b : Bool) (p : Quoting) (s : Text) → comment_from b unquoted (b':' ∷ b' ' ∷ quote p s) ≡ false
unfolding comment_from quote_step
comment_from-pair b p s =
    let behind = comment_from-Covered unquoted (quote p s) [] true (quote-Covered p s) in
    ap (comment_from true unquoted) (sym (append-nil (quote p s))) ∙ behind.1

has_inline_comment-written_pair :
    (q p : Quoting) (key value : Text) → has_inline_comment (written_pair q key p value) ≡ false
unfolding has_inline_comment written_pair
has_inline_comment-written_pair q p key value =
    let rest = b':' ∷ b' ' ∷ quote p value in
    let behind = comment_from-Covered unquoted (quote q key) rest false (quote-Covered q key) in
    behind.1 ∙ comment_from-pair behind.0 p value

delimiter_from-written_pair :
    (q p : Quoting) (key value : Text) (line : ℕ)
    → delimiter_from [] unquoted false (written_pair q key p value) line
      ≡ ok (found (quote q key) (b' ' ∷ quote p value) false)
unfolding delimiter_from written_pair
delimiter_from-written_pair q p key value line =
    let rest = b':' ∷ b' ' ∷ quote p value in
    delimiter_from-Covered unquoted (quote q key) rest [] false line (quote-Covered q key)
    ∙ ap (λ (t : Text). (ok (found t (b' ' ∷ quote p value) false))) (reverse-reverse (quote q key))

-- A key and a value, whatever their bytes, that are written in quotes of either kind stand on a line
-- in which no comment is found, and that is split into the key and the value as it was written,
-- which is read as the string that the value is.
pub split_key_value-written_pair :
    (q p : Quoting) (key value : Text) (line : ℕ)
    → (has_inline_comment (written_pair q key p value) ≡ false)
      × ((split_key_value (written_pair q key p value) line ≡ ok (key, quote p value))
          × (parse_inline_value (quote p value) line ≡ ok (string line value)))
unfolding split_key_value delimiter_pair quote
split_key_value-written_pair q p key value line = (
  has_inline_comment-written_pair q p key value,
  (
    rw
        (
          delimiter_from-written_pair q p key value line,
          read_key-quote q key false line,
          trim_space-blank (quote p value),
          trim_space-quote p value,
        )
        refl,
    parse_inline_value-quote p value line,
  ),
)
