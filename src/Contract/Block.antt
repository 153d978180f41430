-- ===== src/Contract/Block.antt =====
-- internal/contract/parser.go: blocks of lines. An index into the lines is what is left of them.
pub mod Fuel
pub mod Tidy
use savk.Base.{
  ℕ, zero, suc, ◌+◌, Bool, true, false, not, ◌&&◌, ◌||◌, List, [], ◌∷◌, ◌++◌, Option, none, some,
  Result, ok, err, ◌>>=◌, ◌==◌, ltb, if◌then◌else◌, length,
}
use savk.Text.{Text, text_eq, codes}
use savk.Text.Space.{trim_space}
use savk.Text.Ops.{has_prefix, trim_prefix}
use savk.Contract.Node.{
  SourceLine, Node, mapping, list, string, int, bool, Entries, end, lookup_entry, add_entry, Items,
  nil, add_item, ParseError, out_of_fuel, unexpected_end, at_line, unexpected_indentation,
  expected_mapping_entry, nested_list, non_scalar_item, duplicate_key,
}
use savk.Contract.Scalar.{parse_inline_value, split_key_value}

abbrev pub Lines : Type 0
Lines = List SourceLine

-- `strings.HasPrefix(content, "- ")` of the trimmed line
unfoldable pub is_item : SourceLine → Bool
is_item l = has_prefix (trim_space l.content) (codes "- ")

-- `value.kind == nodeMap || value.kind == nodeList`
abbrev pub is_nested : Node → Bool
is_nested (mapping _ _) = true
is_nested (list _ _) = true
is_nested (string _ _) = false
is_nested (int _ _) = false
is_nested (bool _ _) = false

-- One item of `parseList`
unfoldable pub read_item : SourceLine → Result ParseError Node
read_item l =
    let raw = trim_space (trim_prefix (trim_space l.content) (codes "- ")) in
    if text_eq raw [] then err (at_line nested_list l.number) else do
      value ← parse_inline_value raw l.number
      if is_nested value then err (at_line non_scalar_item l.number) else ok value

-- The loop of `parseList`; `start` is the line of the first item.
unfoldable pub list_items : ℕ → ℕ → Items → Lines → Result ParseError (Node × Lines)
list_items start indent items [] = ok (list start items, [])
list_items start indent items (l ∷ ls) =
    let done = ok (list start items, l ∷ ls) in
    let more = read_item l >>= λ value. list_items start indent (add_item items value) ls in
    if ltb l.indent indent
    then done
    else if ltb indent l.indent
    then err (at_line unexpected_indentation l.number)
    else if not (is_item l)
    then done
    else more

-- `parseBlock`, with `parseMap` as an argument
abbrev pub parse_block :
    (ℕ → ℕ → Entries → Lines → Result ParseError (Node × Lines))
    → ℕ
    → Lines
    → Result ParseError (Node × Lines)
parse_block parse_map indent [] = err unexpected_end
parse_block parse_map indent (l ∷ ls) =
    if not (l.indent == indent)
    then err (at_line unexpected_indentation l.number)
    else if is_item l
    then list_items l.number indent nil (l ∷ ls)
    else parse_map l.number indent end (l ∷ ls)

-- `index+1 < len(lines) && lines[index+1].indent > indent`
abbrev pub nested_indent : ℕ → Lines → Option ℕ
nested_indent indent [] = none
nested_indent indent (l ∷ ls) = if ltb indent l.indent then some l.indent else none

-- The value of an entry, and what is left behind it.
abbrev pub entry_value :
    (ℕ → ℕ → Entries → Lines → Result ParseError (Node × Lines))
    → ℕ
    → ℕ
    → Text
    → Lines
    → Result ParseError (Node × Lines)
entry_value parse_map line indent raw ls =
    if text_eq raw []
    then (elim (nested_indent indent ls) [
      | some deeper ↦ parse_block parse_map deeper ls
      | none ↦ ok (mapping line end, ls)
    ])
    else (parse_inline_value raw line >>= λ value. ok (value, ls))

-- The key and raw value of a line, if the key is new.
unfoldable pub read_entry : Entries → SourceLine → Result ParseError (Text × Text)
read_entry entries l = if is_item l then err (at_line expected_mapping_entry l.number) else do
  (key, raw) ← split_key_value (trim_space l.content) l.number
  elim (lookup_entry entries key) [
    | some _ ↦ err (at_line (duplicate_key key) l.number)
    | none ↦ ok (key, raw)
  ]

-- `parseMap`; `start` is the line of the first entry. Each round takes a unit of fuel.
unfoldable pub parse_map : ℕ → ℕ → ℕ → Entries → Lines → Result ParseError (Node × Lines)
parse_map zero start indent entries lines = err out_of_fuel
parse_map (suc fuel) start indent entries [] = ok (mapping start entries, [])
parse_map (suc fuel) start indent entries (l ∷ ls) =
    let more = read_entry entries l >>= λ (key, raw).
    entry_value (parse_map fuel) l.number indent raw ls >>= λ (value, rest).
    parse_map fuel start indent (add_entry entries key value) rest in
    if ltb l.indent indent
    then ok (mapping start entries, l ∷ ls)
    else if ltb indent l.indent
    then err (at_line unexpected_indentation l.number)
    else more
