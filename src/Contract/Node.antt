-- ===== src/Contract/Node.antt =====
-- internal/contract/parser.go: source lines, nodes, and the errors of the reader.
use savk.Base.{ℕ, Bool, List, Option, none, some, if◌then◌else◌}
use savk.Base.Int.{ℤ}
use savk.Text.{Text, text_eq}

pub record SourceLine : Type 0 where
  pub number : ℕ
  pub indent : ℕ
  pub content : Text

-- `node`: `kind` with the field that it uses, and `line`. A map keeps its entries in the order of
-- the file, with distinct keys.
mutual
  pub data Node : Type 0 where
    mapping : ℕ → Entries → Node
    list : ℕ → Items → Node
    string : ℕ → Text → Node
    int : ℕ → ℤ → Node
    bool : ℕ → Bool → Node

  pub data Entries : Type 0 where
    end : Entries
    entry : Text → Node → Entries → Entries

  pub data Items : Type 0 where
    nil : Items
    item : Node → Items → Items

-- `mapEntries[key]`
unfoldable pub lookup_entry : Entries → Text → Option Node
unfolding text_eq
lookup_entry end k = none
lookup_entry (entry j v es) k = if text_eq k j then some v else lookup_entry es k

-- `entries[key] = value`, for a key that is new
unfoldable pub add_entry : Entries → Text → Node → Entries
add_entry end k v = entry k v end
add_entry (entry j w es) k v = entry j w (add_entry es k v)

-- `append(items, value)`
unfoldable pub add_item : Items → Node → Items
add_item nil v = item v nil
add_item (item w ws) v = item w (add_item ws v)

-- The messages that end in "at line %d".
pub data LineProblem : Type 0 where
  tab_indentation multiple_documents inline_comment : LineProblem
  unexpected_indentation expected_mapping_entry expected_pair : LineProblem
  nested_list non_scalar_item multiline_string flow_style : LineProblem
  anchor alias tag merge_key empty_key colon_in_key unterminated_quote : LineProblem
  trailing_content root_indentation : LineProblem
  duplicate_key : Text → LineProblem
  unsupported_escape : ℕ → LineProblem

-- The messages that `errorAt` builds for a path.
pub data FieldProblem : Type 0 where
  expected_mapping expected_string expected_integer expected_list : FieldProblem
  missing_field empty_value negative_value empty_name empty_path : FieldProblem
  nothing_set no_capability_set : FieldProblem
  invalid_kind invalid_state invalid_restart invalid_mode invalid_path_type : Text → FieldProblem
  invalid_capability : Text → FieldProblem
  uncanonical_capability : Text → Text → FieldProblem
  inactive_service : Text → Text → FieldProblem

-- An error value says what its message says. `out_of_fuel` stands for a recursion past its bound.
pub data ParseError : Type 0 where
  out_of_fuel invalid_utf8 empty_contract unexpected_end root_not_mapping : ParseError
  at_line : LineProblem → ℕ → ParseError
  at_path : FieldProblem → List Text → ParseError
  unknown_field : Text → List Text → Text → ParseError
  unsupported_version unsupported_target : Text → ParseError
  relative_path : Text → List Text → ParseError
