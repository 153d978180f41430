-- ===== src/Reporters/Table.antt =====
-- internal/reporters/table.go: the report as a table.
pub mod Rows
use savk.Base.{ℕ, List, [], ◌∷◌, ◌++◌, Result, ok, ◌>>=◌, if◌then◌else◌}
use savk.Text.{Text, text_eq, codes}
use savk.Text.Ops.{join, replace_byte}
use savk.Text.Number.{decimal, itoa}
use savk.Evidence.{Time, CheckResult, status_text, reason_text}
use savk.Reporters.Report.{JsonReportInput, JsonReportSummary, build_json_report}

-- What `RenderTableReport` calls: the format of a time, and `tabwriter`, from what is written to it to
-- what it writes.
pub record TableHost : Type 0 where
  pub format_time : Time → Text
  pub align : Text → Result Text Text

-- `sanitizeTableText`: the replacer takes three single bytes to a byte that is none of them.
unfoldable pub sanitize_table_text : Text → Text
unfolding replace_byte
sanitize_table_text value =
    replace_byte (replace_byte (replace_byte value b'\n' b' ') b'\r' b' ') b'\t' b' '

-- A line of the table
unfoldable pub table_line : List Text → Text
table_line cells = join cells (b'\t' ∷ []) ++ (b'\n' ∷ [])

-- The cells of a result's row
unfoldable pub table_cells : CheckResult → List Text
unfolding sanitize_table_text
table_cells r =
    status_text r.status
    ∷ r.domain
    ∷ r.check_id
    ∷ reason_text r.reason_code
    ∷ sanitize_table_text r.message
    ∷ []

unfoldable pub table_row : CheckResult → Text
unfolding table_line table_cells
table_row r = table_line (table_cells r)

unfoldable pub table_rows : List CheckResult → Text
unfolding table_row
table_rows [] = []
table_rows (r ∷ rs) = table_row r ++ table_rows rs

-- A line with a label
unfoldable pub labelled : Text → Text → Text
labelled label value = label ++ (value ++ (b'\n' ∷ []))

-- The line "Summary: ..." and the empty line behind it
unfoldable pub summary_line : JsonReportSummary → ℕ → Text
summary_line s exit_code =
    codes "Summary: pass="
    ++ (decimal s.passed
        ++ (codes " fail="
            ++ (decimal s.failed
                ++ (codes " notApplicable="
                    ++ (decimal s.not_applicable
                        ++ (codes " insufficientData="
                            ++ (decimal s.insufficient_data
                                ++ (codes " error="
                                    ++ (decimal s.errors
                                        ++ (codes " exit="
                                            ++ (decimal exit_code ++ (b'\n' ∷ b'\n' ∷ []))))))))))))

-- `RenderTableReport`
unfoldable pub render_table_report : TableHost → JsonReportInput → Result Text Text
unfolding build_json_report labelled summary_line table_line table_rows
render_table_report host input = do
  let report = build_json_report input
  let heading =
      labelled (codes "SAVK ") report.tool_version
      ++ (labelled (codes "RunID: ") report.run_id
          ++ (labelled (codes "Target: ") report.target
              ++ (labelled (codes "Host: ") report.host
                  ++ ((if text_eq report.host_root []
                        then []
                        else labelled (codes "HostRoot: ") report.host_root)
                      ++ (labelled (codes "Started: ") (host.format_time report.started_at)
                          ++ (labelled (codes "Duration: ") (itoa report.duration_ms ++ codes "ms")
                              ++ summary_line report.summary report.exit_code))))))
  let header =
      table_line
        (codes "STATUS" ∷ codes "DOMAIN" ∷ codes "CHECK ID" ∷ codes "REASON" ∷ codes "MESSAGE" ∷ [])
  table ← host.align (header ++ table_rows report.results)
  ok (heading ++ table)
