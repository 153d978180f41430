-- ===== src/Contract/Parse/Written/Repeated.antt =====
-- internal/contract/parser.go: a key that comes twice in a mapping is refused.
use savk.Base.{
  ℕ, zero, suc, ◌+◌, ◌<◌, ◌≡◌, refl, Bool, true, not, ◌||◌, List, [], ◌∷◌, ◌++◌, err, ◌>>=◌, arith,
  ap, ◌∙◌, length, length-append, map, is_none, Option-cases, inl, inr,
}
use savk.Text.{Text, text_eq}
use savk.Text.Order.{contains}
use savk.Text.Distinct.{IsDistinct}
use savk.Contract.Node.{
  Node, string, Entries, end, entry, lookup_entry, add_entry, at_line, duplicate_key,
}
use savk.Contract.Lines.{tokenize}
use savk.Contract.Block.{parse_map}
use savk.Contract.Parse.{parse_root}
use savk.Contract.Scalar.RoundTrip.{split_key_value-written_pair}
use savk.Contract.Quote.Quoting.{double}
use savk.Contract.Parse.Written.{written_mapping, source_line, source_lines, tokenize_from-lines}
use savk.Contract.Parse.Written.Read.{
  AreNew, AreNew-add_entry, read_entry-source_line, is_item-source_line, filled-quote,
  length-source_lines,
}

-- The entries have the key.
abbrev has_entry : Text → Entries → Bool
has_entry k es = not (is_none (lookup_entry es k))

has_entry-add_entry :
    (es : Entries) (j k : Text) (v : Node)
    → has_entry j (add_entry es k v) ≡ (text_eq j k || has_entry j es)
unfolding lookup_entry add_entry
has_entry-add_entry end j k v = ground arith
has_entry-add_entry (entry i w es) j k v = ground (arith, has_entry-add_entry es j k v)

-- A line whose key the entries have.
parse_map-again :
    (fuel start line : ℕ) (es : Entries) (q : Text × Text) (qs : List (Text × Text))
    → has_entry q.0 es ≡ true
    → parse_map (suc fuel) start 0 es (source_lines line (q ∷ qs))
      ≡ err (at_line (duplicate_key q.0) line)
unfolding parse_map source_lines source_line
parse_map-again fuel start line es q qs h = elim (Option-cases (lookup_entry es q.0)) [
  | inl absent ↦ absurd (ground arith)
  | inr (v, found) ↦ rw (read_entry-source_line es line q, found) refl
]

parse_map-repeated :
    (fuel start line : ℕ) (es : Entries) (ps : List (Text × Text)) (q : Text × Text)
    (qs : List (Text × Text))
    → length ps < fuel
    → AreNew es ps
    → IsDistinct (map (λ p. p.0) ps)
    → (contains q.0 (map (λ p. p.0) ps) || has_entry q.0 es) ≡ true
    → parse_map fuel start 0 es (source_lines line (ps ++ (q ∷ qs)))
      ≡ err (at_line (duplicate_key q.0) (line + length ps))
unfolding parse_map source_lines source_line contains
parse_map-repeated zero start line es ps q qs h new d again = absurd (omega arith)
parse_map-repeated (suc fuel) start line es [] q qs h new d again =
    parse_map-again fuel start line es q qs again
    ∙ ap (λ (n : ℕ). err (at_line (duplicate_key q.0) n)) (omega arith)
parse_map-repeated (suc fuel) start line es (p ∷ ps) q qs h new d again =
    let value = string line p.1 in
    let rest =
      parse_map-repeated fuel start (line + 1) (add_entry es p.0 value) ps q qs (omega arith)
        (AreNew-add_entry es p.0 value ps new.1 d.0) d.1
        (ground (arith, has_entry-add_entry es q.0 p.0 value)) in
    let lines : line + 1 + length ps ≡ line + length (p ∷ ps) = omega arith in
    rw
      (
        read_entry-source_line es line p,
        new.0,
        filled-quote p.1,
        (split_key_value-written_pair double double p.0 p.1 line).1.1,
        rest,
      )
      (ap (λ (n : ℕ). err (at_line (duplicate_key q.0) n)) lines)

parse_root-repeated :
    (p : Text × Text) (ps : List (Text × Text)) (q : Text × Text) (qs : List (Text × Text))
    → IsDistinct (map (λ p. p.0) (p ∷ ps))
    → contains q.0 (map (λ p. p.0) (p ∷ ps)) ≡ true
    → parse_root (source_lines 1 (p ∷ (ps ++ (q ∷ qs))))
      ≡ err (at_line (duplicate_key q.0) (1 + length (p ∷ ps)))
unfolding parse_root source_lines source_line lookup_entry
parse_root-repeated p ps q qs d again =
    let all = p ∷ (ps ++ (q ∷ qs)) in
    let fuel = suc (length (source_lines 1 all)) in
    let enough : length (p ∷ ps) < fuel =
      omega (arith, length-source_lines 1 all, length-append ps (q ∷ qs)) in
    rw
      (
        is_item-source_line 1 p,
        parse_map-repeated fuel 1 1 end (p ∷ ps) q qs enough (all_new (p ∷ ps)) d
            (ground (arith, again)),
      )
      refl
  where
    all_new : (ps : List (Text × Text)) → AreNew end ps
    all_new [] = tt
    all_new (p ∷ ps) = (refl, all_new ps)

-- A mapping that is written between double quotes is refused where a key comes for the second time:
-- behind pairs with distinct keys, of which one is that key, with the line and the key in the error.
pub parse_root-repeated_key :
    (p : Text × Text) (ps : List (Text × Text)) (q : Text × Text) (qs : List (Text × Text))
    → IsDistinct (map (λ p. p.0) (p ∷ ps))
    → contains q.0 (map (λ p. p.0) (p ∷ ps)) ≡ true
    → (tokenize (written_mapping (p ∷ (ps ++ (q ∷ qs)))) >>= parse_root)
      ≡ err (at_line (duplicate_key q.0) (1 + length (p ∷ ps)))
unfolding tokenize
parse_root-repeated_key p ps q qs d again =
    rw (tokenize_from-lines 1 (p ∷ (ps ++ (q ∷ qs)))) (parse_root-repeated p ps q qs d again)
