-- ===== src/Contract/Block/Tidy.antt =====
-- The keys of every mapping that is read are distinct.
use savk.Base.{
  ℕ, zero, suc, ◌≡◌, refl, ap, Bool, true, false, not, ◌||◌, [], ◌∷◌, ◌++◌, Option, none, some,
  Result, ok, err, ◌==◌, ltb, arith, inl, inr, Bool-cases,
}
use savk.Text.{Text, text_eq, codes}
use savk.Text.Order.{contains}
use savk.Text.Space.{trim_space}
use savk.Text.Distinct.{IsDistinct, IsDistinct-concat}
use savk.Text.Ops.{has_prefix}
use savk.Contract.Node.{
  SourceLine, Node, mapping, list, string, int, bool, Entries, end, entry, Items, nil, lookup_entry,
  add_entry, add_item, ParseError, at_line, multiline_string, flow_style, unexpected_indentation,
  duplicate_key, expected_mapping_entry,
}
use savk.Contract.Ensures.{Ensures, good, bad, then-Ensures, if-Ensures, Ensures-ok}
use savk.Contract.Field.{entry_keys}
use savk.Contract.Quote.{parse_quoted}
use savk.Contract.Scalar.{reject_scalar_feature, parse_inline_value, plain_value, split_key_value}
use savk.Contract.Block.{
  Lines, is_item, read_item, list_items, parse_block, nested_indent, entry_value, read_entry,
  parse_map,
}

unfoldable mutual
  pub Tidy : Node → Type 0
  Tidy (mapping _ es) = IsDistinct (entry_keys es) × TidyEntries es
  Tidy (list _ _) = Unit {0}
  Tidy (string _ _) = Unit {0}
  Tidy (int _ _) = Unit {0}
  Tidy (bool _ _) = Unit {0}

  pub TidyEntries : Entries → Type 0
  TidyEntries end = Unit {0}
  TidyEntries (entry k v es) = Tidy v × TidyEntries es

-- What is read is tidy.
abbrev pub TidyRead : Node × Lines → Type 0
TidyRead r = Tidy r.0

entry_keys-add_entry :
    (es : Entries) (k : Text) (v : Node) → entry_keys (add_entry es k v) ≡ entry_keys es ++ (k ∷ [])
unfolding entry_keys add_entry
entry_keys-add_entry end k v = refl
entry_keys-add_entry (entry j w es) k v = ap (◌∷◌ j) (entry_keys-add_entry es k v)

pub contains-entry_keys :
    (es : Entries) (k : Text) → lookup_entry es k ≡ none → contains k (entry_keys es) ≡ false
unfolding entry_keys lookup_entry contains
contains-entry_keys end k h = refl
contains-entry_keys (entry j w es) k h = ground (arith, contains-entry_keys es k)

add_entry-TidyEntries :
    (es : Entries) (k : Text) (v : Node) → TidyEntries es → Tidy v → TidyEntries (add_entry es k v)
unfolding add_entry TidyEntries
add_entry-TidyEntries end k v h t = (t, tt)
add_entry-TidyEntries (entry j w es) k v h t = (h.0, add_entry-TidyEntries es k v h.1 t)

pub lookup_entry-Tidy :
    (es : Entries) (k : Text) (n : Node) → TidyEntries es → lookup_entry es k ≡ some n → Tidy n
unfolding lookup_entry TidyEntries
lookup_entry-Tidy end k n h e = absurd (cc)
lookup_entry-Tidy (entry j w es) k n h e = elim (Bool-cases (text_eq k j)) [
  | inl same ↦ let found : w ≡ n = ground arith in rw (← found) h.0
  | inr differs ↦ lookup_entry-Tidy es k n h.1 (ground arith)
]

plain_value-Tidy : (raw : Text) (line : ℕ) → Tidy (plain_value raw line)
unfolding plain_value Tidy
plain_value-Tidy raw line = ground arith

parse_inline_value-Tidy : (raw : Text) (line : ℕ) → Ensures Tidy (parse_inline_value raw line)
unfolding parse_inline_value Tidy
parse_inline_value-Tidy raw line = if-Ensures (text_eq raw (codes "[]")) (good (list line nil) tt) (
    if-Ensures (text_eq raw (codes "|") || text_eq raw (codes ">"))
      (bad (at_line multiline_string line))
      (if-Ensures (has_prefix raw (codes "[") || has_prefix raw (codes "{"))
        (bad (at_line flow_style line))
        (if-Ensures (has_prefix raw (codes "|") || has_prefix raw (codes ">"))
          (bad (at_line multiline_string line))
          (then-Ensures (reject_scalar_feature raw line)
            λ _ _. then-Ensures (parse_quoted raw line) λ value _. of_value value))))
  where
    of_value :
        (value : Text × Bool)
        → Ensures Tidy
            (ok (elim value.1 [ false ↦ plain_value raw line | true ↦ string line value.0 ]))
    of_value (s, true) = good _ tt
    of_value (s, false) = good _ (plain_value-Tidy raw line)

read_entry-new :
    (es : Entries) (l : SourceLine) (r : Text × Text)
    → read_entry es l ≡ ok r
    → lookup_entry es r.0 ≡ none
unfolding read_entry
read_entry-new es l r h =
    Ensures-ok {P = λ (q : Text × Text). lookup_entry es q.0 ≡ none} r
      (if-Ensures (is_item l) (bad (at_line expected_mapping_entry l.number)) (
        then-Ensures (split_key_value (trim_space l.content) l.number)
          λ kv _. of_key kv (lookup_entry es kv.0) refl))
      h
  where
    of_key :
        (kv : Text × Text) (o : Option Node)
        → lookup_entry es kv.0 ≡ o
        → Ensures
            (λ (q : Text × Text). lookup_entry es q.0 ≡ none)
            (elim o [
              | some _ ↦ err (at_line (duplicate_key kv.0) l.number)
              | none ↦ ok (kv.0, kv.1)
            ])
    of_key kv none e = good _ e
    of_key kv (some _) e = bad _

list_items-Tidy :
    (start indent : ℕ) (items : Items) (ls : Lines)
    → Ensures TidyRead (list_items start indent items ls)
unfolding list_items Tidy
list_items-Tidy start indent items [] = good (list start items, []) tt
list_items-Tidy start indent items (l ∷ ls) =
    if-Ensures (ltb l.indent indent) (good (list start items, l ∷ ls) tt) (
      if-Ensures (ltb indent l.indent) (bad (at_line unexpected_indentation l.number)) (
        if-Ensures (not (is_item l)) (good (list start items, l ∷ ls) tt) (
          then-Ensures (read_item l)
            λ value _. list_items-Tidy start indent (add_item items value) ls)))

-- `Tidy` of what a reader of mappings returns, on entries that are tidy.
abbrev pub TidyMaps : (ℕ → ℕ → Entries → Lines → Result ParseError (Node × Lines)) → Type 0
TidyMaps read =
    (start indent : ℕ) (es : Entries) (ls : Lines)
    → IsDistinct (entry_keys es)
    → TidyEntries es
    → Ensures TidyRead (read start indent es ls)

pub parse_block-Tidy :
    (read : ℕ → ℕ → Entries → Lines → Result ParseError (Node × Lines))
    → TidyMaps read
    → (indent : ℕ) (ls : Lines) → Ensures TidyRead (parse_block read indent ls)
unfolding Tidy TidyEntries entry_keys
parse_block-Tidy read h indent [] = bad _
parse_block-Tidy read h indent (l ∷ ls) =
    if-Ensures (not (l.indent == indent)) (bad (at_line unexpected_indentation l.number)) (
      if-Ensures (is_item l) (list_items-Tidy l.number indent nil (l ∷ ls))
        (h l.number indent end (l ∷ ls) tt tt))

entry_value-Tidy :
    (read : ℕ → ℕ → Entries → Lines → Result ParseError (Node × Lines))
    → TidyMaps read
    → (line indent : ℕ) (raw : Text) (ls : Lines)
    → Ensures TidyRead (entry_value read line indent raw ls)
unfolding Tidy TidyEntries entry_keys
entry_value-Tidy read h line indent raw ls =
    if-Ensures (text_eq raw []) (of_indent (nested_indent indent ls)) (
      then-Ensures (parse_inline_value raw line)
        λ value e. good _ (Ensures-ok value (parse_inline_value-Tidy raw line) e))
  where
    of_indent :
        (o : Option ℕ)
        → Ensures TidyRead
            (elim o [ none ↦ ok (mapping line end, ls) | some deeper ↦ parse_block read deeper ls ])
    of_indent none = good _ (tt, tt)
    of_indent (some deeper) = parse_block-Tidy read h deeper ls

pub parse_map-Tidy : (fuel : ℕ) → TidyMaps (parse_map fuel)
unfolding parse_map Tidy
parse_map-Tidy zero start indent es ls d t = bad _
parse_map-Tidy (suc fuel) start indent es [] d t = good _ (d, t)
parse_map-Tidy (suc fuel) start indent es (l ∷ ls) d t =
    if-Ensures (ltb l.indent indent) (good (mapping start es, l ∷ ls) (d, t)) (
      if-Ensures (ltb indent l.indent) (bad (at_line unexpected_indentation l.number)) (
        then-Ensures (read_entry es l) λ kv fresh.
          then-Ensures (entry_value (parse_map fuel) l.number indent kv.1 ls) λ r read.
            parse_map-Tidy fuel start indent (add_entry es kv.0 r.0) r.1
              (rw entry_keys-add_entry (
                IsDistinct-concat (entry_keys es) kv.0 d
                  (contains-entry_keys es kv.0 (read_entry-new es l kv fresh))))
              (add_entry-TidyEntries es kv.0 r.0 t (
                Ensures-ok {P = TidyRead} r
                  (entry_value-Tidy (parse_map fuel) (parse_map-Tidy fuel) l.number indent kv.1 ls)
                  read))))
