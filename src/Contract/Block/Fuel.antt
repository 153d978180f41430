-- ===== src/Contract/Block/Fuel.antt =====
-- The fuel of the reader: `parseMap` takes a line with each unit.
use savk.Base.{
  ℕ, zero, suc, ◌≤◌, ◌<◌, ◌≡◌, refl, Bool, true, false, not, ◌&&◌, ◌||◌, [], ◌∷◌, Result, ok, err,
  ◌>>=◌, ◌==◌, length, arith,
}
use savk.Text.{Text, codes}
use savk.Text.Space.{trim_space}
use savk.Text.Ops.{drop_last, trim_prefix}
use savk.Contract.Node.{
  SourceLine, Node, Entries, end, add_entry, Items, nil, add_item, ParseError, out_of_fuel,
}
use savk.Contract.Quote.{decode_double, parse_quoted}
use savk.Contract.Lines.{Quotes, unquoted, quote_step}
use savk.Contract.Scalar.{
  reject_scalar_feature, reject_key_feature, parse_inline_value, delimiter_from, Delimiter, found,
  missing, delimiter_pair, check_key, read_key, split_key_value,
}
use savk.Contract.Block.{
  Lines, read_item, list_items, parse_block, entry_value, read_entry, parse_map,
}

-- The result is no lack of fuel.
abbrev pub is_fueled {ℓ} : {A : Type ℓ} → Result ParseError A → Bool
is_fueled (ok a) = true
is_fueled (err out_of_fuel) = false
is_fueled (err _) = true

module _ {ℓ κ} {A : Type ℓ} {B : Type κ} where
  pub bind-is_fueled :
      (m : Result ParseError A) (f : A → Result ParseError B)
      → is_fueled m ≡ true
      → ((a : A) → is_fueled (f a) ≡ true)
      → is_fueled (m >>= f) ≡ true
  bind-is_fueled (ok a) f h k = k a
  bind-is_fueled (err out_of_fuel) f h k = h
  bind-is_fueled (err _) f h k = refl

decode_double-is_fueled : (raw : Text) (line : ℕ) → is_fueled (decode_double raw line) ≡ true
unfolding decode_double
decode_double-is_fueled [] line = refl
decode_double-is_fueled (c ∷ []) line = ground arith
decode_double-is_fueled (c ∷ d ∷ raw) line =
    ground (arith, decode_double-is_fueled (d ∷ raw) line, decode_double-is_fueled raw line)

parse_quoted-is_fueled : (raw : Text) (line : ℕ) → is_fueled (parse_quoted raw line) ≡ true
unfolding parse_quoted
parse_quoted-is_fueled [] line = refl
parse_quoted-is_fueled (c ∷ s) line = ground (arith, decode_double-is_fueled (drop_last s) line)

reject_scalar_feature-is_fueled :
    (raw : Text) (line : ℕ) → is_fueled (reject_scalar_feature raw line) ≡ true
unfolding reject_scalar_feature
reject_scalar_feature-is_fueled raw line = ground arith

reject_key_feature-is_fueled :
    (raw : Text) (line : ℕ) → is_fueled (reject_key_feature raw line) ≡ true
unfolding reject_key_feature
reject_key_feature-is_fueled raw line = ground (arith, reject_scalar_feature-is_fueled raw line)

parse_inline_value-is_fueled :
    (raw : Text) (line : ℕ) → is_fueled (parse_inline_value raw line) ≡ true
unfolding parse_inline_value
parse_inline_value-is_fueled raw line =
    ground (arith, reject_scalar_feature-is_fueled raw line, parse_quoted-is_fueled raw line)

delimiter_from-is_fueled :
    (before : Text) (q : Quotes) (saw : Bool) (s : Text) (line : ℕ)
    → is_fueled (delimiter_from before q saw s line) ≡ true
unfolding delimiter_from
delimiter_from-is_fueled before q saw [] line = ground arith
delimiter_from-is_fueled before q saw (c ∷ s) line = ground (
  arith,
  delimiter_from-is_fueled (c ∷ before) (quote_step q c)
      (saw || (c == b':' && not (q.in_single || q.in_double))) s line,
)

check_key-is_fueled :
    (saw : Bool) (line : ℕ) (k : Text × Bool) → is_fueled (check_key saw line k) ≡ true
unfolding check_key
check_key-is_fueled saw line (key, true) = refl
check_key-is_fueled saw line (key, false) = ground (arith, reject_key_feature-is_fueled key line)

read_key-is_fueled :
    (before : Text) (saw : Bool) (line : ℕ) → is_fueled (read_key before saw line) ≡ true
unfolding read_key
read_key-is_fueled before saw line = ground (
  arith,
  bind-is_fueled (parse_quoted (trim_space before) line) (check_key saw line)
      (parse_quoted-is_fueled (trim_space before) line) (check_key-is_fueled saw line),
)

delimiter_key-is_fueled : (line : ℕ) (d : Delimiter) → is_fueled (delimiter_pair line d) ≡ true
unfolding delimiter_pair
delimiter_key-is_fueled line missing = refl
delimiter_key-is_fueled line (found before after saw) =
    bind-is_fueled (read_key before saw line) _ (read_key-is_fueled before saw line) λ key. refl

split_key_value-is_fueled :
    (content : Text) (line : ℕ) → is_fueled (split_key_value content line) ≡ true
unfolding split_key_value
split_key_value-is_fueled content line =
    bind-is_fueled (delimiter_from [] unquoted false content line) _
      (delimiter_from-is_fueled [] unquoted false content line) (delimiter_key-is_fueled line)

read_item-is_fueled : (l : SourceLine) → is_fueled (read_item l) ≡ true
unfolding read_item
read_item-is_fueled l = ground (
  arith,
  parse_inline_value-is_fueled (trim_space (trim_prefix (trim_space l.content) (codes "- ")))
      l.number,
)

read_entry-is_fueled : (es : Entries) (l : SourceLine) → is_fueled (read_entry es l) ≡ true
unfolding read_entry
read_entry-is_fueled es l =
    ground (arith, split_key_value-is_fueled (trim_space l.content) l.number)

-- A reader that returns leaves no more lines than `n`, and does not lack fuel.
abbrev pub Leaves : ℕ → Result ParseError (Node × Lines) → Type 0
Leaves n (ok (v, rest)) = length rest ≤ n
Leaves n (err out_of_fuel) = ⊥
Leaves n (err _) = Unit {0}

module _ {ℓ} {A : Type ℓ} where
  Leaves-bind :
      (n : ℕ) (m : Result ParseError A) (f : A → Result ParseError (Node × Lines))
      → is_fueled m ≡ true
      → ((a : A) → Leaves n (f a))
      → Leaves n (m >>= f)
  Leaves-bind n (ok a) f h k = k a
  Leaves-bind n (err out_of_fuel) f h k = absurd (cc)
  Leaves-bind n (err _) f h k = tt

-- The same, for a first reader that leaves lines to a second.
Leaves-then :
    (n : ℕ) (m : Result ParseError (Node × Lines))
    (f : Node × Lines → Result ParseError (Node × Lines))
    → Leaves n m
    → ((v : Node) (rest : Lines) → length rest ≤ n → Leaves n (f (v, rest)))
    → Leaves n (m >>= f)
Leaves-then n (ok (v, rest)) f h k = k v rest h
Leaves-then n (err out_of_fuel) f h k = h
Leaves-then n (err _) f h k = tt

Leaves-le : (m n : ℕ) (r : Result ParseError (Node × Lines)) → m ≤ n → Leaves m r → Leaves n r
Leaves-le m n (ok (v, rest)) le h = omega arith
Leaves-le m n (err out_of_fuel) le h = h
Leaves-le m n (err _) le h = tt

list_items-Leaves :
    (start indent : ℕ) (items : Items) (ls : Lines)
    → Leaves (length ls) (list_items start indent items ls)
unfolding list_items
list_items-Leaves start indent items [] = omega arith
list_items-Leaves start indent items (l ∷ ls) = ground (
  arith,
  Leaves-le (length ls) (suc (length ls))
      (read_item l >>= λ v. list_items start indent (add_item items v) ls) (omega arith)
      (Leaves-bind (length ls) (read_item l) (λ v. list_items start indent (add_item items v) ls)
        (read_item-is_fueled l) λ v. list_items-Leaves start indent (add_item items v) ls),
)

-- `parseMap` on fewer lines than its fuel.
abbrev pub MapLeaves : ℕ → (ℕ → ℕ → Entries → Lines → Result ParseError (Node × Lines)) → Type 0
MapLeaves fuel parse_map =
    (start indent : ℕ) (es : Entries) (ls : Lines)
    → length ls < fuel
    → Leaves (length ls) (parse_map start indent es ls)

pub parse_block-Leaves :
    (fuel : ℕ) (f : ℕ → ℕ → Entries → Lines → Result ParseError (Node × Lines))
    → MapLeaves fuel f
    → (indent : ℕ) (ls : Lines) → length ls < fuel
    → Leaves (length ls) (parse_block f indent ls)
parse_block-Leaves fuel f maps indent [] lt = tt
parse_block-Leaves fuel f maps indent (l ∷ ls) lt =
    ground
      (arith, list_items-Leaves l.number indent nil (l ∷ ls), maps l.number indent end (l ∷ ls) lt)

entry_value-Leaves :
    (fuel : ℕ) (f : ℕ → ℕ → Entries → Lines → Result ParseError (Node × Lines))
    → MapLeaves fuel f
    → (line indent : ℕ) (raw : Text) (ls : Lines) → length ls < fuel
    → Leaves (length ls) (entry_value f line indent raw ls)
entry_value-Leaves fuel f maps line indent raw [] lt =
    ground (arith, parse_inline_value-is_fueled raw line)
entry_value-Leaves fuel f maps line indent raw (l ∷ ls) lt = ground (
  arith,
  parse_inline_value-is_fueled raw line,
  parse_block-Leaves fuel f maps l.indent (l ∷ ls) lt,
)

-- The rest of a round of `parseMap`, from the line of an entry.
abbrev entry_round :
    (ℕ → ℕ → Entries → Lines → Result ParseError (Node × Lines))
    → ℕ
    → ℕ
    → Entries
    → SourceLine
    → Lines
    → Result ParseError (Node × Lines)
entry_round f start indent es l ls = read_entry es l >>= λ (key, raw).
    entry_value f l.number indent raw ls >>= λ (value, rest).
    f start indent (add_entry es key value) rest

entry_round-Leaves :
    (fuel : ℕ) (f : ℕ → ℕ → Entries → Lines → Result ParseError (Node × Lines))
    → MapLeaves fuel f
    → (start indent : ℕ) (es : Entries) (l : SourceLine) (ls : Lines) → length ls < fuel
    → Leaves (length ls) (entry_round f start indent es l ls)
entry_round-Leaves fuel f maps start indent es l ls lt =
    Leaves-bind (length ls) (read_entry es l) _ (read_entry-is_fueled es l) λ kr.
      Leaves-then (length ls) (entry_value f l.number indent kr.1 ls)
        (λ vr. f start indent (add_entry es kr.0 vr.0) vr.1)
        (entry_value-Leaves fuel f maps l.number indent kr.1 ls lt)
        λ v rest le.
          Leaves-le (length rest) (length ls) _ le
            (maps start indent (add_entry es kr.0 v) rest (omega arith))

-- With more fuel than lines, `parseMap` never lacks fuel, and leaves no more lines than it gets.
pub parse_map-Leaves : (fuel : ℕ) → MapLeaves fuel (parse_map fuel)
unfolding parse_map
parse_map-Leaves zero start indent es ls lt = absurd (omega arith)
parse_map-Leaves (suc fuel) start indent es [] lt = omega arith
parse_map-Leaves (suc fuel) start indent es (l ∷ ls) lt = ground (
  arith,
  Leaves-le (length ls) (suc (length ls)) (entry_round (parse_map fuel) start indent es l ls)
      (omega arith)
      (entry_round-Leaves fuel (parse_map fuel) (parse_map-Leaves fuel) start indent es l ls
        (omega arith)),
)
