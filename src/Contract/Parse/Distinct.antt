-- ===== src/Contract/Parse/Distinct.antt =====
-- The maps of a contract that is read have distinct keys.
use savk.Base.{
  suc, length, ◌==◌, ◌≡◌, refl, true, not, ◌&&◌, List, [], ◌∷◌, Option, none, some, ok, ◌>>=◌,
  is_empty, arith,
}
use savk.Text.{Text, text_eq, codes}
use savk.Text.Order.{contains}
use savk.Text.Distinct.{IsDistinct, sort_strings-IsDistinct}
use savk.Text.Utf8.{is_valid_utf8}
use savk.Contract.Node.{
  Node, mapping, list, string, int, bool, Entries, lookup_entry, at_path, at_line, root_indentation,
  invalid_utf8, empty_contract, invalid_kind, unsupported_version,
}
use savk.Contract.Schema.{Contract, keys}
use savk.Contract.Lines.{tokenize}
use savk.Contract.Block.{Lines, parse_block, parse_map}
use savk.Contract.Block.Tidy.{
  Tidy, TidyEntries, lookup_entry-Tidy, parse_block-Tidy, parse_map-Tidy,
}
use savk.Contract.Ensures.{Ensures, good, bad, then-Ensures, if-Ensures, weaken-Ensures, Ensures-ok}
use savk.Contract.Field.{
  DecodeResult, entry_keys, sorted_keys, reject_unknown, expect_map, require_string_field,
  require_map_field,
}
use savk.Contract.Decode.{
  require, decode_each, decode_domain, decode_metadata, decode_service, decode_socket, decode_path,
  decode_identity, decode_contract,
}
use savk.Contract.Parse.{
  check_identities, validate_semantics, root_entries, parse_root, parse_bytes,
}

root_entries-TidyEntries : (r : Node × Lines) → Tidy r.0 → Ensures TidyEntries (root_entries r)
unfolding root_entries Tidy
root_entries-TidyEntries (mapping _ es, []) t = good es t.1
root_entries-TidyEntries (list _ _, []) t = bad _
root_entries-TidyEntries (string _ _, []) t = bad _
root_entries-TidyEntries (int _ _, []) t = bad _
root_entries-TidyEntries (bool _ _, []) t = bad _
root_entries-TidyEntries (mapping _ _, l ∷ ls) t = bad _
root_entries-TidyEntries (list _ _, l ∷ ls) t = bad _
root_entries-TidyEntries (string _ _, l ∷ ls) t = bad _
root_entries-TidyEntries (int _ _, l ∷ ls) t = bad _
root_entries-TidyEntries (bool _ _, l ∷ ls) t = bad _

parse_root-TidyEntries : (ls : Lines) → Ensures TidyEntries (parse_root ls)
unfolding parse_root
parse_root-TidyEntries [] = bad empty_contract
parse_root-TidyEntries (l ∷ ls) =
    if-Ensures (not (l.indent == 0)) (bad (at_line root_indentation l.number)) (
      then-Ensures (parse_block (parse_map (suc (length (l ∷ ls)))) 0 (l ∷ ls)) λ r read.
        root_entries-TidyEntries r (
          Ensures-ok {P = λ (q : Node × Lines). Tidy q.0} r
            (parse_block-Tidy (parse_map (suc (length (l ∷ ls))))
              (parse_map-Tidy (suc (length (l ∷ ls)))) 0 (l ∷ ls))
            read))

-- The keys are among `ks`, each once.
abbrev KeysIn : {A : Type 0} → List Text → List (Text × A) → Type 0
KeysIn ks m = IsDistinct (keys m) × ((k : Text) → contains k (keys m) ≡ true → contains k ks ≡ true)

decode_each-KeysIn :
    {A : Type 0} (decode : Text → Node → DecodeResult A) (es : Entries) (ks : List Text)
    → IsDistinct ks
    → Ensures (KeysIn ks) (decode_each decode es ks)
unfolding decode_each contains
decode_each-KeysIn decode es [] d = good [] (tt, λ k h. h)
decode_each-KeysIn {A = A} decode es (k ∷ ks) d =
    decode_next (lookup_entry es k) (decode_each-KeysIn decode es ks d.1)
  where
    decode_next :
        (o : Option Node)
        → Ensures (KeysIn {A = A} ks) (decode_each decode es ks)
        → Ensures (KeysIn (k ∷ ks)) (elim o [
          | none ↦ decode_each decode es ks
          | some n ↦ (decode k n >>= λ a. decode_each decode es ks >>= λ rest. ok ((k, a) ∷ rest))
        ])
    decode_next none h = weaken-Ensures (λ m p. (p.0, λ j here. ground (arith, p.1 j here))) h
    decode_next (some n) h = then-Ensures (decode k n) λ a _.
        then-Ensures (decode_each decode es ks) λ rest e.
          let p = Ensures-ok {P = KeysIn {A = A} ks} rest h e in
          good ((k, a) ∷ rest) ((ground (arith, p.1 k, d.0), p.0), λ j here. ground (arith, p.1 j))

sorted_keys-IsDistinct :
    (n : Node) (fs : Entries) (path : List Text)
    → Tidy n
    → expect_map n path ≡ ok fs
    → IsDistinct (sorted_keys fs)
unfolding expect_map sorted_keys Tidy
sorted_keys-IsDistinct (mapping _ es) fs path t h =
    let same : es ≡ fs = cc in rw (← same) (sort_strings-IsDistinct (entry_keys es) t.0)
sorted_keys-IsDistinct (list _ _) fs path t h = absurd (cc)
sorted_keys-IsDistinct (string _ _) fs path t h = absurd (cc)
sorted_keys-IsDistinct (int _ _) fs path t h = absurd (cc)
sorted_keys-IsDistinct (bool _ _) fs path t h = absurd (cc)

decode_domain-IsDistinct :
    {A : Type 0} (es : Entries) (name : Text) (decode : Text → Node → DecodeResult A)
    (m : List (Text × A))
    → TidyEntries es
    → decode_domain es name decode ≡ ok m
    → IsDistinct (keys m)
unfolding decode_domain
decode_domain-IsDistinct {A} es name decode m t h =
    Ensures-ok {P = λ (m : List (Text × A)). IsDistinct (keys m)} m
      (of_node (lookup_entry es name) (lookup_entry-Tidy es name)) h
  where
    of_node :
        (o : Option Node)
        → ((n : Node) → TidyEntries es → o ≡ some n → Tidy n)
        → Ensures
            (λ (m : List (Text × A)). IsDistinct (keys m))
            (elim o [
              | none ↦ ok []
              | some n ↦ (expect_map n (name ∷ []) >>= λ fs. decode_each decode fs (sorted_keys fs))
            ])
    of_node none tidy = good [] tt
    of_node (some n) tidy = then-Ensures (expect_map n (name ∷ [])) λ fs e.
        weaken-Ensures (λ m p. p.0)
          (decode_each-KeysIn decode fs (sorted_keys fs)
            (sorted_keys-IsDistinct n fs (name ∷ []) (tidy n t refl) e))

-- Each map has each key once.
pub record HasDistinctKeys (c : Contract) : Type 0 where
  pub services : IsDistinct (keys c.services)
  pub sockets : IsDistinct (keys c.sockets)
  pub paths : IsDistinct (keys c.paths)
  pub identity : IsDistinct (keys c.identity)

decode_contract-HasDistinctKeys :
    (upper : Text → Text) (es : Entries) (c : Contract)
    → TidyEntries es
    → decode_contract upper es ≡ ok c
    → HasDistinctKeys c
unfolding decode_contract
decode_contract-HasDistinctKeys upper es c t = Ensures-ok {P = HasDistinctKeys} c (
    then-Ensures
      (reject_unknown []
        (codes "apiVersion"
          ∷ codes "kind"
          ∷ codes "metadata"
          ∷ codes "services"
          ∷ codes "sockets"
          ∷ codes "paths"
          ∷ codes "identity"
          ∷ [])
        (sorted_keys es))
      λ _ _. then-Ensures (require_string_field es [] (codes "apiVersion")) λ api_version _.
        then-Ensures
          (require (text_eq api_version (codes "savk/v1")) (unsupported_version api_version))
          λ u version. then-Ensures (require_string_field es [] (codes "kind")) λ kind _.
            then-Ensures
              (require (text_eq kind (codes "ApplianceContract"))
                (at_path (invalid_kind kind) (codes "kind" ∷ [])))
              λ v same_kind. then-Ensures (require_map_field es [] (codes "metadata")) λ meta _.
                then-Ensures (decode_metadata meta (codes "metadata" ∷ [])) λ metadata m.
                  then-Ensures (decode_domain es (codes "services") (decode_service upper))
                    λ services sv.
                      then-Ensures (decode_domain es (codes "sockets") decode_socket) λ sockets so.
                        then-Ensures (decode_domain es (codes "paths") decode_path) λ paths pa.
                          then-Ensures (decode_domain es (codes "identity") (decode_identity upper))
                            λ identity ids.
                              then-Ensures
                                (require
                                  (not (
                                    is_empty services
                                    && is_empty sockets
                                    && is_empty paths
                                    && is_empty identity))
                                  empty_contract)
                                λ w filled.
                                  good
                                    (record {
                                      api_version = api_version;
                                      kind = kind;
                                      metadata = metadata;
                                      services = services;
                                      sockets = sockets;
                                      paths = paths;
                                      identity = identity;
                                    })
                                    (record {
                                      services =
                                          decode_domain-IsDistinct es (codes "services")
                                            (decode_service upper) services t sv;
                                      sockets =
                                          decode_domain-IsDistinct es (codes "sockets")
                                            decode_socket sockets t so;
                                      paths =
                                          decode_domain-IsDistinct es (codes "paths") decode_path
                                            paths t pa;
                                      identity =
                                          decode_domain-IsDistinct es (codes "identity")
                                            (decode_identity upper) identity t ids;
                                    }))

-- The maps of a contract that `ParseBytes` returns have each key once.
pub parse_bytes-HasDistinctKeys :
    (upper : Text → Text) (input : Text) (c : Contract)
    → parse_bytes upper input ≡ ok c
    → HasDistinctKeys c
unfolding parse_bytes validate_semantics
parse_bytes-HasDistinctKeys upper input c = Ensures-ok {P = HasDistinctKeys} c (
    then-Ensures (require (is_valid_utf8 input) invalid_utf8) λ _ _.
      then-Ensures (tokenize input) λ lines _. then-Ensures (parse_root lines) λ es read.
        then-Ensures (decode_contract upper es) λ d decoded.
          then-Ensures (check_identities d.services d.identity) λ u checked. good d (
            decode_contract-HasDistinctKeys upper es d
              (Ensures-ok es (parse_root-TidyEntries lines) read) decoded))
