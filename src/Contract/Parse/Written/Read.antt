-- ===== src/Contract/Parse/Written/Read.antt =====
-- internal/contract/parser.go: the reader of blocks undoes the writing of a mapping.
use savk.Base.{
  ℕ, zero, suc, ◌+◌, ◌<◌, ◌≡◌, refl, false, List, [], ◌∷◌, Option, none, some, Result, ok, err,
  ◌>>=◌, arith, ap, length, map,
}
use savk.Text.{Text, codes, text_eq, text_eq_iff}
use savk.Text.Ops.{has_prefix}
use savk.Text.Order.{contains}
use savk.Text.Distinct.{IsDistinct}
use savk.Text.Space.{trim_space}
use savk.Contract.Node.{
  Node, string, mapping, Entries, end, entry, lookup_entry, add_entry, ParseError, at_line,
  duplicate_key,
}
use savk.Contract.Lines.{tokenize}
use savk.Contract.Block.{is_item, read_entry, parse_map}
use savk.Contract.Parse.{parse_root, root_entries}
use savk.Contract.Scalar.RoundTrip.{trim_space-marks, double_mark, split_key_value-written_pair}
use savk.Contract.Quote.Quoting.{double, quote}
use savk.Contract.Parse.Written.{
  line_of, written_mapping, source_line, source_lines, inner, line_of-between, tokenize_from-lines,
}

-- The entries of such lines, from a line on, behind other entries.
unfoldable pub entries_from : ℕ → Entries → List (Text × Text) → Entries
entries_from line es [] = es
entries_from line es ((key, value) ∷ ps) =
    entries_from (line + 1) (add_entry es key (string line value)) ps

-- The keys are in none of the entries.
abbrev pub AreNew : Entries → List (Text × Text) → Type 0
AreNew es [] = Unit {0}
AreNew es (p ∷ ps) = (lookup_entry es p.0 ≡ none) × AreNew es ps

lookup_entry-add_entry :
    (es : Entries) (j k : Text) (v : Node)
    → lookup_entry es j ≡ none
    → text_eq j k ≡ false
    → lookup_entry (add_entry es k v) j ≡ none
unfolding lookup_entry add_entry
lookup_entry-add_entry end j k v h other = rw other refl
lookup_entry-add_entry (entry i w es) j k v h other =
    ground (arith, lookup_entry-add_entry es j k v)

pub AreNew-add_entry :
    (es : Entries) (k : Text) (v : Node) (ps : List (Text × Text))
    → AreNew es ps
    → contains k (map (λ p. p.0) ps) ≡ false
    → AreNew (add_entry es k v) ps
unfolding contains
AreNew-add_entry es k v [] new h = tt
AreNew-add_entry es k v (p ∷ ps) new h = (
  lookup_entry-add_entry es p.0 k v new.0 (ground (arith, text_eq_iff p.0 k, text_eq_iff k p.0)),
  AreNew-add_entry es k v ps new.1 (ground arith),
)

pub is_item-source_line : (line : ℕ) (p : Text × Text) → is_item (source_line line p) ≡ false
unfolding is_item source_line
is_item-source_line line p =
    rw (line_of-between p, trim_space-marks b'"' (inner p) double_mark)
      (unfold has_prefix codes in refl)

-- What a line of a pair is read as, by what its key has in the entries.
abbrev pub entry_of : ℕ → Text × Text → Option Node → Result ParseError (Text × Text)
entry_of line p none = ok (p.0, quote double p.1)
entry_of line p (some _) = err (at_line (duplicate_key p.0) line)

pub read_entry-source_line :
    (es : Entries) (line : ℕ) (p : Text × Text)
    → read_entry es (source_line line p) ≡ entry_of line p (lookup_entry es p.0)
unfolding read_entry source_line
read_entry-source_line es line p =
    let whole : trim_space (line_of p) ≡ line_of p =
      rw (line_of-between p) (trim_space-marks b'"' (inner p) double_mark) in
    let item : is_item (source_line line p) ≡ false = is_item-source_line line p in
    let pair = (split_key_value-written_pair double double p.0 p.1 line).1.0 in
    rw (item, whole, pair) (by_lookup (lookup_entry es p.0))
  where
    by_lookup :
        (o : Option Node)
        → elim o [
          | some _ ↦ err (at_line (duplicate_key p.0) line)
          | none ↦ ok (p.0, quote double p.1)
        ]
          ≡ entry_of line p o
    by_lookup none = refl
    by_lookup (some _) = refl

pub filled-quote : (s : Text) → text_eq (quote double s) [] ≡ false
unfolding quote text_eq
filled-quote s = refl

parse_map-lines :
    (fuel start line : ℕ) (es : Entries) (ps : List (Text × Text))
    → length ps < fuel
    → AreNew es ps
    → IsDistinct (map (λ p. p.0) ps)
    → parse_map fuel start 0 es (source_lines line ps)
      ≡ ok (mapping start (entries_from line es ps), [])
unfolding parse_map source_lines entries_from source_line
parse_map-lines zero start line es ps h new d = absurd (omega arith)
parse_map-lines (suc fuel) start line es [] h new d = refl
parse_map-lines (suc fuel) start line es (p ∷ ps) h new d =
    let value = string line p.1 in
    let rest =
      parse_map-lines fuel start (line + 1) (add_entry es p.0 value) ps (omega arith)
        (AreNew-add_entry es p.0 value ps new.1 d.0) d.1 in
    rw
      (
        read_entry-source_line es line p,
        new.0,
        filled-quote p.1,
        (split_key_value-written_pair double double p.0 p.1 line).1.1,
        rest,
      )
      refl

pub length-source_lines :
    (line : ℕ) (ps : List (Text × Text)) → length (source_lines line ps) ≡ length ps
unfolding source_lines
length-source_lines line [] = refl
length-source_lines line (p ∷ ps) = ap suc (length-source_lines (line + 1) ps)

parse_root-source_lines :
    (p : Text × Text) (ps : List (Text × Text))
    → IsDistinct (map (λ p. p.0) (p ∷ ps))
    → parse_root (source_lines 1 (p ∷ ps)) ≡ ok (entries_from 1 end (p ∷ ps))
unfolding parse_root root_entries source_lines source_line lookup_entry
parse_root-source_lines p ps d =
    let fuel = suc (length (source_lines 1 (p ∷ ps))) in
    let enough : length (p ∷ ps) < fuel = omega (arith, length-source_lines 1 (p ∷ ps)) in
    rw (is_item-source_line 1 p, parse_map-lines fuel 1 1 end (p ∷ ps) enough (all_new (p ∷ ps)) d)
      refl
  where
    all_new : (ps : List (Text × Text)) → AreNew end ps
    all_new [] = tt
    all_new (p ∷ ps) = (refl, all_new ps)

-- The lines of a mapping that is written between double quotes are read back as its entries,
-- whatever the bytes of its keys and values are, if no key comes twice.
pub parse_root-written_mapping :
    (p : Text × Text) (ps : List (Text × Text))
    → IsDistinct (map (λ p. p.0) (p ∷ ps))
    → (tokenize (written_mapping (p ∷ ps)) >>= parse_root) ≡ ok (entries_from 1 end (p ∷ ps))
unfolding tokenize
parse_root-written_mapping p ps d =
    rw (tokenize_from-lines 1 (p ∷ ps)) (parse_root-source_lines p ps d)
