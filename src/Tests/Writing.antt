-- ===== src/Tests/Writing.antt =====
-- Writing and reading back texts in quotes.
use savk.Base.{◌≡◌, refl, false, List, [], ◌∷◌, ok, err, ◌>>=◌}
use savk.Text.{Text, codes, text_eq}
use savk.Text.Order.{contains}
use savk.Contract.Node.{string, end, at_line, duplicate_key}
use savk.Contract.Lines.{tokenize, has_inline_comment}
use savk.Contract.Scalar.{split_key_value, parse_inline_value}
use savk.Contract.Scalar.RoundTrip.{written_pair, split_key_value-written_pair}
use savk.Contract.Quote.Quoting.{escape_byte, escaped, double_byte, doubled, double, single, quote}
use savk.Contract.Parse.{parse_root}
use savk.Contract.Parse.Written.{written_mapping}
use savk.Contract.Parse.Written.Repeated.{parse_root-repeated_key}
use savk.Contract.Parse.Written.Read.{entries_from, parse_root-written_mapping}

-- A key with a colon and a comment, and a value with both quotes.
abbrev odd_key : Text
odd_key = codes "a: #b"

abbrev odd_value : Text
odd_value = codes "it's \"x\"\n"

pair_written : written_pair double odd_key single (codes "it's") ≡ codes "\"a: #b\": 'it''s'"
unfolding written_pair quote escape_byte escaped double_byte doubled codes
pair_written = refl

split_key_value-written_pair_example :
    (has_inline_comment (written_pair double odd_key single odd_value) ≡ false)
    × ((split_key_value (written_pair double odd_key single odd_value) 7
          ≡ ok (odd_key, quote single odd_value))
        × (parse_inline_value (quote single odd_value) 7 ≡ ok (string 7 odd_value)))
split_key_value-written_pair_example =
    split_key_value-written_pair double single odd_key odd_value 7

abbrev rest : List (Text × Text)
rest = (codes "b", odd_value) ∷ []

parse_root-written_mapping_example :
    (tokenize (written_mapping ((odd_key, []) ∷ rest)) >>= parse_root)
    ≡ ok (entries_from 1 end ((odd_key, []) ∷ rest))
unfolding contains codes text_eq
parse_root-written_mapping_example =
    parse_root-written_mapping (odd_key, []) rest (refl, (refl, tt))

-- The third pair has the key of the first.
parse_root-repeated_key_example :
    (tokenize (
        written_mapping
          ((odd_key, []) ∷ (codes "b", odd_value) ∷ (odd_key, odd_value) ∷ (codes "c", []) ∷ []))
      >>= parse_root)
    ≡ err (at_line (duplicate_key odd_key) 3)
unfolding contains codes text_eq
parse_root-repeated_key_example =
    parse_root-repeated_key (odd_key, []) rest (odd_key, odd_value) ((codes "c", []) ∷ [])
      (refl, (refl, tt)) refl
