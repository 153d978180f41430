-- ===== src/Contract/Parse.antt =====
-- internal/contract/parser.go, semantic.go: `ParseBytes` and `ValidateSemantics`.
pub mod Total
pub mod Valid
pub mod Distinct
pub mod Written
use savk.Base.{
  ℕ, suc, Bool, true, false, not, ◌&&◌, List, [], ◌∷◌, Option, none, some, Result, ok, err, ◌>>=◌,
  ◌==◌, length, if◌then◌else◌, map,
}
use savk.Text.{Text, text_eq, codes}
use savk.Text.Utf8.{is_valid_utf8}
use savk.Contract.Node.{
  SourceLine, Node, mapping, list, string, int, bool, Entries, end, ParseError, invalid_utf8,
  empty_contract, root_not_mapping, at_line, root_indentation, trailing_content, at_path,
  inactive_service,
}
use savk.Contract.Schema.{ServiceSpec, IdentitySpec, Contract}
use savk.Contract.Lines.{tokenize}
use savk.Contract.Block.{Lines, parse_block, parse_map}
use savk.Contract.Field.{DecodeResult}
use savk.Contract.Decode.{decode_contract, require}

-- A map, by its entries.
unfoldable pub lookup_spec {ℓ} : {A : Type ℓ} → List (Text × A) → Text → Option A
lookup_spec [] k = none
lookup_spec ((j, a) ∷ m) k = let rest = lookup_spec m k in if text_eq k j then some a else rest

-- One label of the loop of `ValidateSemantics`: a service that is declared must be active.
unfoldable pub check_identity :
    List (Text × ServiceSpec) → Text → IdentitySpec → DecodeResult (Unit {0})
check_identity services label spec = elim (lookup_spec services spec.service) [
  | none ↦ ok tt
  | some declared ↦ require (text_eq declared.state (codes "active")) (
      at_path (inactive_service spec.service declared.state)
        (codes "identity" ∷ label ∷ codes "service" ∷ []))
]

-- The loop of `ValidateSemantics`: a contract keeps its entries by sorted label.
unfoldable pub check_identities :
    List (Text × ServiceSpec) → List (Text × IdentitySpec) → DecodeResult (Unit {0})
check_identities services [] = ok tt
check_identities services ((label, spec) ∷ rest) = do
  _ ← check_identity services label spec
  check_identities services rest

-- `ValidateSemantics` of a contract that is not nil.
unfoldable pub validate_semantics : Contract → DecodeResult (Unit {0})
validate_semantics c = check_identities c.services c.identity

-- The root block: all lines are read, and it is a mapping.
unfoldable pub root_entries : Node × Lines → DecodeResult Entries
root_entries (root, l ∷ ls) = err (at_line trailing_content l.number)
root_entries (mapping _ es, []) = ok es
root_entries (_, []) = err root_not_mapping

-- The root block of the lines, with more fuel than lines.
unfoldable pub parse_root : Lines → DecodeResult Entries
parse_root [] = err empty_contract
parse_root (l ∷ ls) =
    if not (l.indent == 0)
    then err (at_line root_indentation l.number)
    else (parse_block (parse_map (suc (length (l ∷ ls)))) 0 (l ∷ ls) >>= root_entries)

-- `ParseBytes`; `upper` is `strings.ToUpper`.
unfoldable pub parse_bytes : (Text → Text) → Text → DecodeResult Contract
parse_bytes upper input = do
  _ ← require (is_valid_utf8 input) invalid_utf8
  lines ← tokenize input
  es ← parse_root lines
  contract ← decode_contract upper es
  _ ← validate_semantics contract
  ok contract

-- An error of `os.ReadFile`, or of `ParseBytes`.
pub data FileError (E : Type 0) : Type 0 where
  unreadable : E → FileError E
  unparsed : ParseError → FileError E

-- `ParseFile`, over `os.ReadFile`
unfoldable pub parse_file :
    {E W : Type 0}
    → (Text → Text)
    → (Text → W → Result E Text × W)
    → Text
    → W
    → Result (FileError E) Contract × W
unfolding parse_bytes
parse_file upper read_file path w =
    let (bytes, w') = read_file path w in
    (
      elim bytes [
        | err e ↦ err (unreadable e)
        | ok input ↦ elim (parse_bytes upper input) [ err e ↦ err (unparsed e) | ok cfg ↦ ok cfg ]
      ],
      w',
    )
