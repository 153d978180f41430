-- ===== src/CommandLine/Command/Total.antt =====
-- cmd/savk/main.go: when `runCheck` runs the checks of a contract.
use savk.Base.{◌≡◌, ◌≢◌, true, List, ok, every, arith, Bool-cases, Result-cases, inl, inr}
use savk.Text.{Text}
use savk.Evidence.{Time, CheckResult}
use savk.Contract.Schema.{Contract}
use savk.Engine.{Check, validate_checks}
use savk.Engine.Run.{Engine, run}
use savk.Reporters.Report.{JsonReportInput}
use savk.Reporters.Report.Codes.{exit_code_for_results-eq}
use savk.CommandLine.{selected_domains}
use savk.CommandLine.Tools.{hosts_for}
use savk.CommandLine.Build.Total.{
  is_supported, build_checks_for_domains-validate_checks, build_checks_for_domains-unsupported,
}
use savk.CommandLine.Command.{
  CheckFlags, System, checks_of, render, report_input, report, run_checks, check_contract,
}
use savk.CommandLine.Command.Passing.{IsPlan}

-- The report is rendered and written.
pub record CanReport {W : Type 0} (system : System W) (format : Text) : Type 0 where
  pub renders : (input : JsonReportInput) → (text : Text) × (render system format input ≡ ok text)
  pub writes : (text : Text) (w : W) → (system.write text w).0 ≡ true

module _ {W : Type 0} (system : System W) where
  plan-validate_checks :
      (flags : CheckFlags) (root input : Text) (c : Contract) (checks : List (Check W))
      → IsPlan system flags root input c checks
      → (ordered : List (Check W)) × (validate_checks checks ≡ ok ordered)
  plan-validate_checks flags root input c checks plan =
      elim (Bool-cases (every is_supported (selected_domains c flags.domain))) [
        | inl supported ↦
            let (out, ordered, built, valid) =
              build_checks_for_domains-validate_checks (hosts_for system.tools root) system.upper
                input flags.domain root c plan.parsed supported in
            let planned = plan.built in (ordered, ground (arith, built, planned, valid))
        | inr unsupported ↦
            let (d, here, other, failed) =
              build_checks_for_domains-unsupported (hosts_for system.tools root) system.upper input
                flags.domain root c plan.parsed unsupported in
            let planned = plan.built in ground (arith, failed, planned)
      ]

  checks_of-plan :
      (flags : CheckFlags) (root input : Text) (c : Contract) (checks : List (Check W))
      → IsPlan system flags root input c checks
      → checks_of system flags root input ≡ ok (c, checks)
  unfolding checks_of
  checks_of-plan flags root input c checks plan =
      let parsed = plan.parsed in
      let built = plan.built in
      let some_domain = plan.some_domain in
      let some_check = plan.some_check in
      let rooted = plan.rooted in ground (arith, parsed, built, some_domain, some_check, rooted)

  report-ne_three :
      (flags : CheckFlags) (root input : Text) (c : Contract) (started_at : Time)
      (results : List CheckResult) (w : W)
      → CanReport system flags.format
      → (report system flags root input c started_at results w).0 ≢ 3
  unfolding report
  report-ne_three flags root input c started_at results w can =
      let (reported, w1) = report_input system flags root input c started_at results w in
      let (text, rendered) = can.renders reported in
      let written = can.writes text w1 in
      ground (arith, rendered, written, exit_code_for_results-eq results)

  run_checks-ne_three :
      (flags : CheckFlags) (root input : Text) (c : Contract) (checks ordered : List (Check W))
      (w : W)
      → CanReport system flags.format
      → validate_checks checks ≡ ok ordered
      → (run_checks system flags root input c checks w).0 ≢ 3
  unfolding run_checks run
  run_checks-ne_three flags root input c checks ordered w can valid =
      let (started_at, v) = system.engine_host.now w in
      let e : Engine = record { collector_timeout = flags.collector_timeout } in
      elim (Result-cases (run system.engine_host e system.background checks v)) [
        | inl (stop, failed) ↦ ground (arith, failed, valid)
        | inr ((results, v'), ran) ↦
            let reported = report-ne_three flags root input c started_at results v' can in
            ground (arith, ran, reported)
      ]

  -- Once the contract has been parsed and checks of it have been built, for at least one domain that
  -- is selected and with none that the host root excludes, and if the report can be rendered and
  -- written, `savk check` does not end with the exit code 3: the engine accepts the checks.
  pub check_contract-ne_three :
      (flags : CheckFlags) (root input : Text) (c : Contract) (checks : List (Check W)) (w : W)
      → IsPlan system flags root input c checks
      → CanReport system flags.format
      → (check_contract system flags root input w).0 ≢ 3
  unfolding check_contract
  check_contract-ne_three flags root input c checks w plan can =
      let (ordered, valid) = plan-validate_checks flags root input c checks plan in
      ground (
        arith,
        checks_of-plan flags root input c checks plan,
        run_checks-ne_three flags root input c checks ordered w can valid,
      )
