-- ===== src/Tests/Reading.antt =====
-- Reading a small contract.
use savk.Base.{
  leb, ◌&&◌, ◌-◌, if◌then◌else◌, ℕ, ◌≡◌, ◌≢◌, refl, List, [], ◌∷◌, ◌++◌, ok, err, map, reverse,
}
use savk.Contract.Node.{out_of_fuel, SourceLine, lookup_entry, add_entry, add_item}
use savk.Contract.Lines.{
  quote_step, comment_from, has_inline_comment, tokenize_line, tokenize_from, tokenize,
}
use savk.Contract.Quote.{
  count_backslashes, valid_double, valid_single, undouble, unescape, decode_double, parse_quoted,
}
use savk.Contract.Scalar.{
  reject_scalar_feature, reject_key_feature, plain_value, parse_inline_value, delimiter_from,
  check_key, read_key, delimiter_pair, split_key_value,
}
use savk.Contract.Block.{is_item, read_item, list_items, read_entry, parse_map}
use savk.Contract.Field.{
  expect_non_empty_string, entry_keys, sorted_keys, reject_unknown, expect_map, expect_string,
  require_value, require_string_field, require_map_field, validate_absolute_path,
}
use savk.Contract.Decode.{
  expect_fields, decode_each, decode_metadata, decode_path, decode_domain, decode_contract,
}
use savk.Contract.Parse.{
  check_identities, validate_semantics, root_entries, parse_root, parse_bytes,
}
use savk.Contract.Schema.{Contract}
use savk.Text.{Text, codes, text_eq}
use savk.Text.Order.{text_leb, sort_strings, contains}
use savk.Text.Utf8.{tail_width, valid_from}
use savk.Text.Space.{is_space_byte, space_tail, skip_space, trim_space}
use savk.Text.Ops.{
  last_byte, has_prefix, contains_text, contains_byte, split_first, split, trim_left, trim_suffix,
  trim_prefix, cut, replace_byte, drop_last,
}
use savk.Text.Number.{digits_onto, decimal, digit_value, parse_digits, parse_uint, atoi}
use savk.Contract.Distance.{levenshtein}
use savk.Contract.Distance.Laws.{distance, levenshtein-eq-distance}
use savk.Contract.Parse.Total.{parse_root-ne-out_of_fuel}
use savk.Contract.Parse.Valid.{parse_bytes-IsValid}
use savk.Contract.Decode.Valid.{IsValid, AllValid, IsActive}

levenshtein-eq-distance_example :
    levenshtein (codes "sate") (codes "state")
    ≡ distance (reverse (codes "sate")) (reverse (codes "state"))
levenshtein-eq-distance_example = levenshtein-eq-distance (codes "sate") (codes "state")

-- One insertion away.
state_distance : levenshtein (codes "sate") (codes "state") ≡ 1
unfolding levenshtein codes
state_distance = refl

abbrev line : ℕ → ℕ → Text → SourceLine
line n i s = record { number = n; indent = i; content = s }

abbrev crooked : List SourceLine
crooked = line 1 0 (codes "a:") ∷ line 2 4 (codes "b:") ∷ line 3 2 (codes "c: 1") ∷ []

parse_root-ne-out_of_fuel_example : parse_root crooked ≢ err out_of_fuel
parse_root-ne-out_of_fuel_example = parse_root-ne-out_of_fuel crooked

abbrev pub break : Text
break = b'\n' ∷ []

abbrev pub input : Text
input =
    codes "apiVersion: savk/v1"
    ++ break
    ++ codes "kind: ApplianceContract"
    ++ break
    ++ codes "metadata:"
    ++ break
    ++ codes "  name: a"
    ++ break
    ++ codes "  target: linux-systemd"
    ++ break
    ++ codes "paths:"
    ++ break
    ++ codes "  /a:"
    ++ break
    ++ codes "    owner: root"
    ++ break

-- `strings.ToUpper` on ASCII
abbrev pub upper_byte : ℕ → ℕ
upper_byte c = if leb b'a' c && leb c b'z' then c - 32 else c

abbrev pub to_upper : Text → Text
to_upper = map upper_byte

abbrev pub a_contract : Contract
a_contract = record {
  api_version = codes "savk/v1";
  kind = codes "ApplianceContract";
  metadata = record { name = codes "a"; target = codes "linux-systemd" };
  services = [];
  sockets = [];
  paths = (codes "/a", record { owner = codes "root"; group = []; mode = []; kind = [] }) ∷ [];
  identity = [];
}

pub input_read : parse_bytes to_upper input ≡ ok a_contract
unfolding quote_step comment_from has_inline_comment tokenize_line tokenize_from tokenize
    count_backslashes valid_double valid_single undouble unescape decode_double parse_quoted
    reject_scalar_feature reject_key_feature plain_value parse_inline_value delimiter_from check_key
    read_key delimiter_pair split_key_value is_item read_item list_items read_entry parse_map
    entry_keys sorted_keys reject_unknown expect_map expect_string require_value
    require_string_field require_map_field validate_absolute_path expect_fields decode_each
    decode_metadata decode_path decode_domain decode_contract check_identities validate_semantics
    root_entries parse_root parse_bytes lookup_entry add_entry add_item codes text_eq text_leb
    sort_strings contains tail_width valid_from is_space_byte space_tail skip_space trim_space
    has_prefix contains_text contains_byte split_first split trim_left trim_suffix trim_prefix cut
    replace_byte drop_last digits_onto decimal digit_value parse_digits parse_uint atoi last_byte
    expect_non_empty_string
input_read = refl

parse_bytes-IsValid_example :
    IsValid a_contract × AllValid (IsActive a_contract.services) a_contract.identity
parse_bytes-IsValid_example = parse_bytes-IsValid to_upper input a_contract input_read
