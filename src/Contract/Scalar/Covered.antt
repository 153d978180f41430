-- ===== src/Contract/Scalar/Covered.antt =====
-- internal/contract/parser.go: the two scans of a line pass over what stands in quotes.
use savk.Base.{ℕ, ◌≡◌, refl, Bool, true, false, not, ◌||◌, [], ◌∷◌, ◌++◌, ◌==◌, arith}
use savk.Text.{Text}
use savk.Contract.Lines.{Quotes, unquoted, quote_step, comment_from}
use savk.Contract.Scalar.{delimiter_from}
use savk.Contract.Quote.Quoting.{
  escaped, doubled, Quoting, double, single, quote, plain, backslashed, EscapeByte-cases, once,
  twice, DoubleByte-cases,
}
use mathlib.Core.List.{reverse_aux}

abbrev in_double : Quotes
in_double = record { in_single = false; in_double = true; escaped = false }

abbrev in_single : Quotes
in_single = record { in_single = true; in_double = false; escaped = false }

-- Neither a comment nor a delimiter begins with the byte.
abbrev is_hidden : Quotes → ℕ → Bool
is_hidden q c = q.in_single || (q.in_double || not (c == b'#' || c == b':'))

-- A text that leads out of quotes and begins neither on its way.
pub data Covered : Quotes → Text → Type 0 where
  end : Covered unquoted []
  next :
      (q : Quotes) (c : ℕ) (s : Text)
      → is_hidden q c ≡ true
      → Covered (quote_step q c) s
      → Covered q (c ∷ s)

-- The scan for comments goes on behind the text.
pub comment_from-Covered :
    (q : Quotes) (x s : Text) (after_space : Bool)
    → Covered q x
    → (b : Bool) × (comment_from after_space q (x ++ s) ≡ comment_from b unquoted s)
unfolding comment_from
comment_from-Covered q [] s a end = (a, refl)
comment_from-Covered q (c ∷ x) s a (next _ _ _ hidden rest) =
    let more = comment_from-Covered (quote_step q c) x s (c == b' ') rest in (more.0, ground arith)

-- So does the scan for the delimiter.
pub delimiter_from-Covered :
    (q : Quotes) (x s before : Text) (saw : Bool) (line : ℕ)
    → Covered q x
    → delimiter_from before q saw (x ++ s) line
      ≡ delimiter_from (reverse_aux x before) unquoted saw s line
unfolding delimiter_from
delimiter_from-Covered q [] s before saw line end = refl
delimiter_from-Covered q (c ∷ x) s before saw line (next _ _ _ hidden rest) =
    let more = delimiter_from-Covered (quote_step q c) x s (c ∷ before) saw line rest in
    ground arith

plain_step :
    (c : ℕ) → (c == b'\\') ≡ false → (c == b'"') ≡ false → quote_step in_double c ≡ in_double
unfolding quote_step
plain_step c h h' = ground arith

once_step : (c : ℕ) → (c == b'\'') ≡ false → quote_step in_single c ≡ in_single
unfolding quote_step
once_step c h = ground arith

second_step : (c : ℕ) → quote_step (record in_double { escaped = true }) c ≡ in_double
unfolding quote_step
second_step c = ground arith

escaped-Covered : (s : Text) → Covered in_double (escaped s ++ (b'"' ∷ []))
unfolding escaped quote_step
escaped-Covered [] = next in_double b'"' [] refl end
escaped-Covered (c ∷ s) = elim (EscapeByte-cases c) [
  | plain written other unquoted ↦
      let rest = escaped-Covered s in
      rw written (next in_double c _ refl (rw (plain_step c other unquoted) rest))
  | backslashed e written back ↦
      let rest = escaped-Covered s in
      rw written (next in_double b'\\' _ refl (next _ e _ refl (rw (second_step e) rest)))
]

doubled-Covered : (s : Text) → Covered in_single (doubled s ++ (b'\'' ∷ []))
unfolding doubled quote_step
doubled-Covered [] = next in_single b'\'' [] refl end
doubled-Covered (c ∷ s) = elim (DoubleByte-cases c) [
  | once written other ↦
      let rest = doubled-Covered s in
      rw written (next in_single c _ refl (rw (once_step c other) rest))
  | twice written mark ↦
      let rest = doubled-Covered s in
      rw written (next in_single b'\'' _ refl (next unquoted b'\'' _ refl rest))
]

pub quote-Covered : (q : Quoting) (s : Text) → Covered unquoted (quote q s)
unfolding quote quote_step
quote-Covered double s = next unquoted b'"' _ refl (escaped-Covered s)
quote-Covered single s = next unquoted b'\'' _ refl (doubled-Covered s)
