-- ===== src/Reporters/Table/Rows.antt =====
-- internal/reporters/table.go: the rows of the table, read again.
use savk.Base.{◌≡◌, refl, Bool, true, ◌&&◌, List, [], ◌∷◌, ◌++◌, every, map, arith}
use savk.Text.{Text, codes}
use savk.Text.Ops.{contains_byte, split, join, replace_byte}
use savk.Text.Split.{
  is_free, is_free-replace_byte, is_free-replace_byte_other, is_free-join, split-join, split-line,
}
use savk.Evidence.{
  CheckResult, status_text, reason_text, ReasonCode, reasonless, timeout, permission_denied,
  not_found, parse_error, namespace_isolation, internal_error, prerequisite_failed,
}
use savk.Reporters.Table.{sanitize_table_text, table_line, table_cells, table_row, table_rows}

-- No tab and no line feed
unfoldable pub is_cell : Text → Bool
is_cell s = is_free b'\t' s && is_free b'\n' s

-- The status, the domain and the ID can stand in a cell.
unfoldable pub has_plain_names : CheckResult → Bool
has_plain_names r = is_cell (status_text r.status) && is_cell r.domain && is_cell r.check_id

-- Whatever a message holds, the table takes it as one cell of one line.
sanitize_table_text-is_cell : (s : Text) → is_cell (sanitize_table_text s) ≡ true
unfolding is_cell sanitize_table_text
sanitize_table_text-is_cell s =
    let line_feeds = replace_byte s b'\n' b' ' in
    let returns = replace_byte line_feeds b'\r' b' ' in
    let no_feed : is_free b'\n' returns ≡ true =
      is_free-replace_byte_other line_feeds b'\r' b' ' b'\n' refl
        (is_free-replace_byte s b'\n' b' ' refl) in
    ground (
      arith,
      is_free-replace_byte returns b'\t' b' ' refl,
      is_free-replace_byte_other returns b'\t' b' ' b'\n' refl no_feed,
    )

reason_text-is_cell : (r : ReasonCode) → is_cell (reason_text r) ≡ true
unfolding is_cell reason_text is_free contains_byte codes
reason_text-is_cell reasonless = refl
reason_text-is_cell timeout = refl
reason_text-is_cell permission_denied = refl
reason_text-is_cell not_found = refl
reason_text-is_cell parse_error = refl
reason_text-is_cell namespace_isolation = refl
reason_text-is_cell internal_error = refl
reason_text-is_cell prerequisite_failed = refl

table_cells-are_cells :
    (r : CheckResult) → has_plain_names r ≡ true → every is_cell (table_cells r) ≡ true
unfolding has_plain_names table_cells
table_cells-are_cells r h =
    ground (arith, sanitize_table_text-is_cell r.message, reason_text-is_cell r.reason_code)

every-free :
    (cells : List Text)
    → every is_cell cells ≡ true
    → (every (is_free b'\t') cells ≡ true) × (every (is_free b'\n') cells ≡ true)
unfolding is_cell
every-free [] h = (refl, refl)
every-free (x ∷ xs) h =
    let (tabs, lines) = every-free xs (ground arith) in (ground arith, ground arith)

row-cells :
    (r : CheckResult)
    → every (is_free b'\t') (table_cells r) ≡ true
    → split (join (table_cells r) (b'\t' ∷ [])) b'\t' ≡ table_cells r
unfolding table_cells
row-cells r tabs =
    split-join (status_text r.status)
      (r.domain ∷ r.check_id ∷ reason_text r.reason_code ∷ sanitize_table_text r.message ∷ []) b'\t'
      tabs

-- If the statuses, domains and IDs of the results hold no tab and no line feed, then the rows of the
-- table, split into lines and these at the tabs, are the cells of the results, in order, whatever
-- their messages hold.
pub split-table_rows :
    (rs : List CheckResult)
    → every has_plain_names rs ≡ true
    → map (λ (line : Text). split line b'\t') (split (table_rows rs) b'\n')
      ≡ map table_cells rs ++ (([] ∷ []) ∷ [])
unfolding table_rows table_row table_line
split-table_rows [] h = unfold split in refl
split-table_rows (r ∷ rs) h =
    let (tabs, feeds) = every-free (table_cells r) (table_cells-are_cells r (ground arith)) in
    let line = join (table_cells r) (b'\t' ∷ []) in
    let one_line : split (table_row r ++ table_rows rs) b'\n' ≡ line ∷ split (table_rows rs) b'\n' =
      split-line line (table_rows rs) b'\n' (is_free-join (table_cells r) b'\n' b'\t' refl feeds) in
    rw (one_line, row-cells r tabs, split-table_rows rs (ground arith)) refl
