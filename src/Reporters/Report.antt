-- ===== src/Reporters/Report.antt =====
-- internal/reporters/json.go: the report, its summary and the exit code.
pub mod Codes
use savk.Base.{
  ◌++◌, Result, ok, ◌>>=◌, ℕ, suc, ◌+◌, Bool, true, false, not, ◌||◌, List, [], ◌∷◌, map, ltb,
  if◌then◌else◌,
}
use savk.Base.Int.{ℤ}
use savk.Text.{Text, codes}
use savk.Text.Order.{text_leb}
use savk.Evidence.{
  Time, EvalStatus, pass, fail, not_applicable, insufficient_data, error, other, CheckResult,
}
use savk.Reporters.Sanitize.{sanitize_evidence}

pub record JsonReportInput : Type 0 where
  pub tool_version : Text
  pub contract_version : Text
  pub contract_hash : Text
  pub run_id : Text
  pub target : Text
  pub host : Text
  pub host_root : Text
  pub started_at : Time
  pub duration_ms : ℤ
  pub include_raw : Bool
  pub results : List CheckResult

pub record JsonReportSummary : Type 0 where
  pub passed : ℕ
  pub failed : ℕ
  pub not_applicable : ℕ
  pub insufficient_data : ℕ
  pub errors : ℕ

pub record JsonReport : Type 0 where
  pub schema_version : Text
  pub tool_version : Text
  pub contract_version : Text
  pub contract_hash : Text
  pub run_id : Text
  pub target : Text
  pub host : Text
  pub host_root : Text
  pub started_at : Time
  pub duration_ms : ℤ
  pub exit_code : ℕ
  pub summary : JsonReportSummary
  pub results : List CheckResult

-- The `switch` of `SummarizeResults`
unfoldable pub count_status : JsonReportSummary → EvalStatus → JsonReportSummary
count_status s pass = record s { passed = suc s.passed }
count_status s fail = record s { failed = suc s.failed }
count_status s not_applicable = record s { not_applicable = suc s.not_applicable }
count_status s insufficient_data = record s { insufficient_data = suc s.insufficient_data }
count_status s error = record s { errors = suc s.errors }
count_status s (other _) = s

unfoldable pub summarize_from : JsonReportSummary → List CheckResult → JsonReportSummary
summarize_from s [] = s
summarize_from s (r ∷ rs) = summarize_from (count_status s r.status) rs

-- `SummarizeResults`
unfoldable pub summarize_results : List CheckResult → JsonReportSummary
summarize_results =
    summarize_from
      (record { passed = 0; failed = 0; not_applicable = 0; insufficient_data = 0; errors = 0 })

-- `ExitCodeForResults`
unfoldable pub exit_code_for_results : List CheckResult → ℕ
exit_code_for_results results =
    let summary = summarize_results results in
    if ltb 0 summary.errors || ltb 0 summary.insufficient_data
    then 2
    else if ltb 0 summary.failed
    then 1
    else 0

unfoldable pub insert_result : CheckResult → List CheckResult → List CheckResult
insert_result r [] = r ∷ []
insert_result r (s ∷ rs) =
    let rest = insert_result r rs in if text_leb r.check_id s.check_id then r ∷ s ∷ rs else s ∷ rest

-- `sort.Slice` by `CheckID`. The order of results with equal IDs, which the source leaves open and
-- the engine never returns, is kept.
unfoldable pub sort_results : List CheckResult → List CheckResult
sort_results [] = []
sort_results (r ∷ rs) = insert_result r (sort_results rs)

-- `normalizeResults`
unfoldable pub normalize_results : Bool → List CheckResult → List CheckResult
normalize_results include_raw results =
    map (λ (r : CheckResult). record r { evidence = sanitize_evidence include_raw r.evidence })
      (sort_results results)

-- `BuildJSONReport`
unfoldable pub build_json_report : JsonReportInput → JsonReport
build_json_report input =
    let results = normalize_results input.include_raw input.results in
    record {
      schema_version = codes "savk-report/v1";
      tool_version = input.tool_version;
      contract_version = input.contract_version;
      contract_hash = input.contract_hash;
      run_id = input.run_id;
      target = input.target;
      host = input.host;
      host_root = input.host_root;
      started_at = input.started_at;
      duration_ms = input.duration_ms;
      exit_code = exit_code_for_results results;
      summary = summarize_results results;
      results = results;
    }

-- `RenderJSONReport`, over `json.MarshalIndent`
unfoldable pub render_json_report :
    (JsonReport → Result Text Text) → JsonReportInput → Result Text Text
unfolding build_json_report
render_json_report encode_json input =
    encode_json (build_json_report input) >>= λ output. ok (output ++ (b'\n' ∷ []))
