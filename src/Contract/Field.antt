-- ===== src/Contract/Field.antt =====
-- internal/contract/parser.go: the fields of a mapping.
use savk.Base.{
  ℕ, ◌+◌, Bool, false, not, ◌&&◌, ◌||◌, List, [], ◌∷◌, ◌++◌, Option, none, some, Result, ok, err,
  ◌>>=◌, ◌==◌, leb, every, length, if◌then◌else◌,
}
use savk.Base.Int.{ℤ, pos, negsuc}
use savk.Text.{Text, text_eq, codes}
use savk.Text.Order.{contains, sort_strings}
use savk.Text.Space.{is_blank}
use savk.Text.Ops.{has_prefix}
use savk.Text.Number.{itoa}
use savk.Capabilities.{is_canonical, canonicalize_token}
use savk.Contract.Node.{
  Node, mapping, list, string, int, Entries, end, entry, Items, nil, item, lookup_entry, ParseError,
  at_path, expected_mapping, expected_string, expected_integer, expected_list, missing_field,
  empty_value, negative_value, empty_path, unknown_field, relative_path, invalid_capability,
  uncanonical_capability,
}
use savk.Contract.Distance.{nearest_field}

abbrev pub DecodeResult : Type 0 → Type 0
DecodeResult A = Result ParseError A

-- `append(path, name)`
abbrev pub below : List Text → Text → List Text
below path name = path ++ (name ∷ [])

unfoldable pub entry_keys : Entries → List Text
entry_keys end = []
entry_keys (entry k v es) = k ∷ entry_keys es

-- `sortedKeys`
unfoldable pub sorted_keys : Entries → List Text
sorted_keys es = sort_strings (entry_keys es)

-- The loop of `rejectUnknownFields`
unfoldable pub reject_unknown : List Text → List Text → List Text → DecodeResult (Unit {0})
reject_unknown path allowed [] = ok tt
reject_unknown path allowed (field ∷ fields) =
    if contains field allowed
    then reject_unknown path allowed fields
    else err (unknown_field field path (nearest_field field allowed))

-- `expected mapping`, or the entries of a mapping
unfoldable pub expect_map : Node → List Text → DecodeResult Entries
expect_map (mapping _ es) path = ok es
expect_map _ path = err (at_path expected_mapping path)

-- `expectString`
unfoldable pub expect_string : Node → List Text → DecodeResult Text
expect_string (string _ s) path = ok s
expect_string _ path = err (at_path expected_string path)

-- `strings.TrimSpace(value) == ""` is refused
unfoldable pub require_value : Text → List Text → DecodeResult Text
require_value s path = if is_blank s then err (at_path empty_value path) else ok s

-- `expectNonEmptyString`
unfoldable pub expect_non_empty_string : Node → List Text → DecodeResult Text
expect_non_empty_string n path = expect_string n path >>= λ s. require_value s path

-- `expectNonNegativeInt`
unfoldable pub expect_non_negative_int : Node → List Text → DecodeResult ℤ
expect_non_negative_int (int _ (pos n)) path = ok (pos n)
expect_non_negative_int (int _ (negsuc n)) path = err (at_path negative_value path)
expect_non_negative_int _ path = err (at_path expected_integer path)

-- `requireStringField`
unfoldable pub require_string_field : Entries → List Text → Text → DecodeResult Text
require_string_field es path name = elim (lookup_entry es name) [
  | none ↦ err (at_path missing_field (below path name))
  | some n ↦ expect_string n (below path name)
]

-- `requireMapField`
unfoldable pub require_map_field : Entries → List Text → Text → DecodeResult Entries
require_map_field es path name = elim (lookup_entry es name) [
  | none ↦ err (at_path missing_field (below path name))
  | some n ↦ expect_map n (below path name)
]

-- `if child, ok := node.mapEntries[name]; ok { … }`
abbrev pub optional_field :
    {A : Type 0} → Entries → Text → (Node → DecodeResult A) → DecodeResult (Option A)
optional_field es name decode = elim (lookup_entry es name) [
  | none ↦ ok none
  | some n ↦ (decode n >>= λ a. ok (some a))
]

-- A string field that is left empty if it is missing.
abbrev pub optional_text : Entries → Text → (Node → DecodeResult Text) → DecodeResult Text
optional_text es name decode = elim (lookup_entry es name) [ none ↦ ok [] | some n ↦ decode n ]

-- The loop of `decodeStringList`; `index` counts the items.
unfoldable pub decode_strings : ℕ → Items → List Text → DecodeResult (List Text)
decode_strings index nil path = ok []
decode_strings index (item n ns) path = do
  s ← expect_string n (below path (itoa (pos index)))
  _ ← require_value s (below path (itoa (pos index)))
  rest ← decode_strings (index + 1) ns path
  ok (s ∷ rest)

-- `decodeStringList`
unfoldable pub decode_string_list : Node → List Text → DecodeResult (List Text)
decode_string_list (list _ items) path = decode_strings 0 items path
decode_string_list _ path = err (at_path expected_list path)

module _ (upper : Text → Text) where
  -- The loop of `decodeCapabilityList`
  unfoldable pub check_capabilities : ℕ → List Text → List Text → DecodeResult (Unit {0})
  check_capabilities index [] path = ok tt
  check_capabilities index (v ∷ vs) path =
      let rest = check_capabilities (index + 1) vs path in
      let candidate = canonicalize_token upper v in
      let at = below path (itoa (pos index)) in
      if is_canonical v
      then rest
      else if not (text_eq candidate []) && not (text_eq candidate v) && is_canonical candidate
      then err (at_path (uncanonical_capability v candidate) at)
      else err (at_path (invalid_capability v) at)

  -- `decodeCapabilityList`
  unfoldable pub decode_capability_list : Node → List Text → DecodeResult (List Text)
  decode_capability_list n path =
      decode_string_list n path >>= λ values. check_capabilities 0 values path >>= λ _. ok values

-- `validateAbsolutePath`; on Linux `filepath.IsAbs` asks for a slash in front.
unfoldable pub validate_absolute_path : Text → List Text → DecodeResult (Unit {0})
validate_absolute_path value path =
    if is_blank value
    then err (at_path empty_path path)
    else if not (has_prefix value (codes "/"))
    then err (relative_path value path)
    else ok tt

-- `isOctalMode`
unfoldable pub is_octal_mode : Text → Bool
is_octal_mode [] = false
is_octal_mode (c ∷ s) =
    (length s == 3 || length s == 4) && c == b'0' && every (λ d. leb b'0' d && leb d b'7') s
