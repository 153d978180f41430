-- ===== src/Tests/Reporting.antt =====
-- Truncation and the exit code at concrete data.
use savk.Evidence.{status_text}
use savk.Text.Ops.{contains_byte}
use savk.Text.Split.{is_free}
use savk.Reporters.Table.Rows.{is_cell}
use savk.Base.{
  ◌≡◌, refl, true, false, ◌≤◌, List, [], ◌∷◌, arith, if◌then◌else◌, every, length, ◌++◌, none, map,
}
use savk.Base.Int.{pos}
use savk.Text.{Text, codes}
use savk.Text.Utf8.{tail_width, valid_from, is_valid_utf8}
use savk.Evidence.{pass, fail, CheckResult, reasonless, absent, EvalStatus}
use savk.Text.Ops.{split}
use savk.Reporters.Table.{table_cells, table_rows}
use savk.Reporters.Table.Rows.{has_plain_names, split-table_rows}
use savk.Reporters.Sanitize.{
  truncate_suffix, rune_len, rune_tail, cut_from, truncate_utf8, truncate_evidence_raw,
}
use savk.Reporters.Sanitize.Bounds.{length-truncate_evidence_raw}
use savk.Reporters.Sanitize.Boundary.{truncate_evidence_raw-is_valid_utf8}
use savk.Reporters.Report.{
  count_status, summarize_from, summarize_results, JsonReportInput, exit_code_for_results,
  build_json_report,
}
use savk.Reporters.Report.Codes.{
  is_conclusive, is_no_failure, exit_code_for_results-eq, build_json_report-exit_code,
}

-- "aaaaé…", with a rune of two bytes at the cut.
abbrev raw : Text
raw = codes "aaaa" ++ (0xc3 ∷ 0xa9 ∷ codes "bbbbbbbbbbbbbbbbbbbb")

raw_cut : truncate_evidence_raw raw 20 ≡ (codes "aaaa" ++ truncate_suffix, true)
unfolding truncate_evidence_raw truncate_utf8 cut_from rune_len rune_tail tail_width codes
    truncate_suffix
raw_cut = refl

length-truncate_evidence_raw_example : length (truncate_evidence_raw raw 20).0 ≤ 20
length-truncate_evidence_raw_example = length-truncate_evidence_raw raw 20 (omega arith)

-- A byte that starts no rune counts for three, and the cut falls inside the rune behind it.
invalid_cut : truncate_utf8 (0xff ∷ 0xf0 ∷ 0x9f ∷ 0x98 ∷ 0x80 ∷ []) 3 ≡ 0xff ∷ 0xf0 ∷ 0x9f ∷ []
unfolding truncate_utf8 cut_from rune_len rune_tail tail_width
invalid_cut = refl

raw_valid : is_valid_utf8 raw ≡ true
unfolding codes valid_from tail_width
raw_valid = refl

truncate_evidence_raw-is_valid_utf8_example : is_valid_utf8 (truncate_evidence_raw raw 20).0 ≡ true
truncate_evidence_raw-is_valid_utf8_example = truncate_evidence_raw-is_valid_utf8 raw 20 raw_valid

abbrev result : Text → EvalStatus → CheckResult
result id s = record {
  check_id = id;
  domain = [];
  status = s;
  reason_code = reasonless;
  expected = absent;
  observed = absent;
  evidence = record {
    source = [];
    collector = [];
    collected_at = 1;
    command = [];
    exit_code = none;
    raw = codes "token=1";
    redacted = false;
    truncated = false;
  };
  duration_ms = pos 0;
  message = [];
}

abbrev results : List CheckResult
results = result (codes "b") fail ∷ result (codes "a") pass ∷ []

exit_code_for_results-eq_example :
    exit_code_for_results results
    ≡ (if every is_conclusive results then (if every is_no_failure results then 0 else 1) else 2)
exit_code_for_results-eq_example = exit_code_for_results-eq results

results_fail : exit_code_for_results results ≡ 1
unfolding exit_code_for_results summarize_results summarize_from count_status
results_fail = refl

abbrev input : JsonReportInput
input = record {
  tool_version = [];
  contract_version = [];
  contract_hash = [];
  run_id = [];
  target = [];
  host = [];
  host_root = [];
  started_at = 1;
  duration_ms = pos 0;
  include_raw = false;
  results = results;
}

build_json_report-exit_code_example :
    (build_json_report input).exit_code ≡ exit_code_for_results results
build_json_report-exit_code_example = build_json_report-exit_code input

-- A message of two lines, with a tab.
abbrev told : CheckResult
told = record (result (codes "path./etc.exists") pass) {
  message = codes "first" ++ (b'\n' ∷ b'\t' ∷ codes "second");
}

told_plain : every has_plain_names (told ∷ told ∷ []) ≡ true
unfolding has_plain_names is_cell is_free contains_byte status_text codes
told_plain = refl

split-table_rows_example :
    map (λ (line : Text). split line b'\t') (split (table_rows (told ∷ told ∷ [])) b'\n')
    ≡ map table_cells (told ∷ told ∷ []) ++ (([] ∷ []) ∷ [])
split-table_rows_example = split-table_rows (told ∷ told ∷ []) told_plain
