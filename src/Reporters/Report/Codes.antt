-- ===== src/Reporters/Report/Codes.antt =====
-- The exit code, from the results themselves, and in the report.
use savk.Base.{
  ◌≡◌, refl, ◌∙◌, ap, Bool, true, false, not, ◌||◌, ◌&&◌, List, [], ◌∷◌, map, ltb, if◌then◌else◌,
  arith, every,
}
use savk.Evidence.{
  EvalStatus, pass, fail, not_applicable, insufficient_data, error, other, CheckResult,
}
use savk.Reporters.Sanitize.{sanitize_evidence}
use savk.Reporters.Report.{
  JsonReportInput, JsonReportSummary, count_status, summarize_from, summarize_results,
  exit_code_for_results, insert_result, sort_results, normalize_results, build_json_report,
}

-- Neither an error nor a lack of data.
unfoldable pub is_conclusive : CheckResult → Bool
is_conclusive r = elim r.status [ error ↦ false | insufficient_data ↦ false | _ ↦ true ]

unfoldable pub is_no_failure : CheckResult → Bool
is_no_failure r = elim r.status [ fail ↦ false | _ ↦ true ]

-- A summary with every status counted into the two numbers that the exit code reads.
grave : JsonReportSummary → Bool
grave s = ltb 0 s.errors || ltb 0 s.insufficient_data

grave-count :
    (s : JsonReportSummary) (r : CheckResult)
    → grave (count_status s r.status) ≡ (grave s || not (is_conclusive r))
unfolding grave count_status is_conclusive
grave-count s r = go r.status
  where
    go :
        (t : EvalStatus)
        → (ltb 0 (count_status s t).errors || ltb 0 (count_status s t).insufficient_data) ≡ (
            (ltb 0 s.errors || ltb 0 s.insufficient_data)
            || not (elim t [ error ↦ false | insufficient_data ↦ false | _ ↦ true ]))
    go pass = ground arith
    go fail = ground arith
    go not_applicable = ground arith
    go insufficient_data = ground arith
    go error = ground arith
    go (other _) = ground arith

failed-count :
    (s : JsonReportSummary) (r : CheckResult)
    → ltb 0 (count_status s r.status).failed ≡ (ltb 0 s.failed || not (is_no_failure r))
unfolding count_status is_no_failure
failed-count s r = go r.status
  where
    go :
        (t : EvalStatus)
        → ltb 0 (count_status s t).failed
          ≡ (ltb 0 s.failed || not (elim t [ fail ↦ false | _ ↦ true ]))
    go pass = ground arith
    go fail = ground arith
    go not_applicable = ground arith
    go insufficient_data = ground arith
    go error = ground arith
    go (other _) = ground arith

grave-summarize :
    (s : JsonReportSummary) (rs : List CheckResult)
    → grave (summarize_from s rs) ≡ (grave s || not (every is_conclusive rs))
unfolding summarize_from
grave-summarize s [] = ground arith
grave-summarize s (r ∷ rs) =
    ground (arith, grave-count s r, grave-summarize (count_status s r.status) rs)

failed-summarize :
    (s : JsonReportSummary) (rs : List CheckResult)
    → ltb 0 (summarize_from s rs).failed ≡ (ltb 0 s.failed || not (every is_no_failure rs))
unfolding summarize_from
failed-summarize s [] = ground arith
failed-summarize s (r ∷ rs) =
    ground (arith, failed-count s r, failed-summarize (count_status s r.status) rs)

-- The exit code is 2 when some result is an error or lacks data, else 1 when some result fails,
-- else 0.
pub exit_code_for_results-eq :
    (results : List CheckResult)
    → exit_code_for_results results
      ≡ (if every is_conclusive results then (if every is_no_failure results then 0 else 1) else 2)
unfolding exit_code_for_results summarize_results grave
exit_code_for_results-eq results =
    let zeros : JsonReportSummary = record {
      passed = 0;
      failed = 0;
      not_applicable = 0;
      insufficient_data = 0;
      errors = 0;
    } in
    ground (arith, grave-summarize zeros results, failed-summarize zeros results)

every-insert_result :
    (p : CheckResult → Bool) (r : CheckResult) (rs : List CheckResult)
    → every p (insert_result r rs) ≡ (p r && every p rs)
unfolding insert_result
every-insert_result p r [] = refl
every-insert_result p r (s ∷ rs) = ground (arith, every-insert_result p r rs)

every-sort_results :
    (p : CheckResult → Bool) (rs : List CheckResult) → every p (sort_results rs) ≡ every p rs
unfolding sort_results
every-sort_results p [] = refl
every-sort_results p (r ∷ rs) =
    every-insert_result p r (sort_results rs) ∙ ap (p r &&◌) (every-sort_results p rs)

every-map :
    (p : CheckResult → Bool) (f : CheckResult → CheckResult)
    → ((r : CheckResult) → p (f r) ≡ p r)
    → (rs : List CheckResult) → every p (map f rs) ≡ every p rs
every-map p f same [] = refl
every-map p f same (r ∷ rs) = ground (arith, same r, every-map p f same rs)

-- The exit code that the report states is the one of the results before they are sorted and their
-- evidence is sanitized, with which the process ends.
pub build_json_report-exit_code :
    (input : JsonReportInput)
    → (build_json_report input).exit_code ≡ exit_code_for_results input.results
unfolding build_json_report normalize_results is_conclusive is_no_failure
build_json_report-exit_code input =
    let sanitize : CheckResult → CheckResult =
      λ r. record r { evidence = sanitize_evidence input.include_raw r.evidence } in
    let sorted = sort_results input.results in
    ground (
      arith,
      exit_code_for_results-eq input.results,
      exit_code_for_results-eq (map sanitize sorted),
      every-map is_conclusive sanitize (λ r. refl) sorted,
      every-map is_no_failure sanitize (λ r. refl) sorted,
      every-sort_results is_conclusive input.results,
      every-sort_results is_no_failure input.results,
    )
