-- ===== src/CommandLine/Command.antt =====
-- cmd/savk/main.go: `runCheck`, `runValidate` and `run`. What they print is not modelled.
pub mod Passing
pub mod Total
use savk.Base.{
  ℕ, Bool, not, ◌||◌, ◌&&◌, List, ◌++◌, [], ◌∷◌, Option, none, some, Result, ok, err, ◌>>=◌,
  if◌then◌else◌, is_empty,
}
use savk.Base.Int.{ℤ, is_positive}
use savk.Text.{Text, text_eq, codes}
use savk.Text.FilePath.{is_abs, clean}
use savk.Evidence.{Time, CheckResult}
use savk.Contract.Node.{ParseError}
use savk.Contract.Schema.{Contract}
use savk.Contract.Parse.{parse_bytes, parse_file}
use savk.Engine.{Context, Check}
use savk.Engine.Run.{Host, Engine, sub_time, milliseconds, run}
use savk.Reporters.Report.{JsonReportInput, JsonReport, exit_code_for_results, render_json_report}
use savk.Reporters.Table.{TableHost, render_table_report}
use savk.CommandLine.{selected_domains, has_service_backed_domain}
use savk.CommandLine.Build.{BuildError, build_checks_for_domains}
use savk.CommandLine.Tools.{Tools, hosts_for}

-- The flags of `check`
pub record CheckFlags : Type 0 where
  pub contract : Text
  pub format : Text
  pub domain : Text
  pub collector_timeout : ℤ
  pub host_root : Text
  pub include_raw : Bool

-- What the command calls. A parser of flags returns them with the arguments that are left.
pub record System (W : Type 0) : Type 0 where
  pub parse_check_flags : List Text → Option (CheckFlags × List Text)
  pub parse_validate_flags : List Text → Option (Text × List Text)
  pub is_dir : Text → W → Result Text Bool × W
  pub read_file : Text → W → Result Text Text × W
  pub hostname : W → Result Text Text × W
  pub run_id : Time → W → Text × W
  pub hash_contract : Text → Text
  pub encode_json : JsonReport → Result Text Text
  pub table : TableHost
  pub write : Text → W → Bool × W
  pub version : Text
  pub upper : Text → Text
  pub background : Context
  pub engine_host : Host W
  pub tools : Tools W

-- Why no checks are run.
pub data Refusal : Type 0 where
  no_contract : ParseError → Refusal
  no_domains : Refusal
  host_root_unsupported : Refusal
  no_build : BuildError → Refusal
  no_checks : Refusal

-- The flags of `runCheck` that are tested before the host root is
unfoldable pub flags_accepted : CheckFlags → List Text → Bool
flags_accepted flags rest =
    not (text_eq flags.contract []) && is_empty rest && is_positive flags.collector_timeout

unfoldable pub format_supported : Text → Bool
format_supported format = text_eq format (codes "json") || text_eq format (codes "table")

module _ {W : Type 0} (system : System W) where
  -- `normalizeHostRoot`; the errors have no text here.
  unfoldable pub normalize_host_root : Text → W → Option Text × W
  normalize_host_root root w =
      let cleaned = clean root in
      let (info, w1) = system.is_dir cleaned w in
      let found : Option Text = elim info [
        | err _ ↦ none
        | ok dir ↦ if dir then some cleaned else none
      ] in
      if text_eq root [] then (some [], w) else if not (is_abs root) then (none, w) else (found, w1)

  -- The steps of `runCheck` from `ParseBytes` to the checks, with the contract
  unfoldable pub checks_of : CheckFlags → Text → Text → Result Refusal (Contract × List (Check W))
  unfolding selected_domains has_service_backed_domain
  checks_of flags root input = elim (parse_bytes system.upper input) [
    | err e ↦ err (no_contract e)
    | ok cfg ↦
        let domains = selected_domains cfg flags.domain in
        if is_empty domains
        then err no_domains
        else if not (text_eq root []) && has_service_backed_domain domains
        then err host_root_unsupported
        else elim (build_checks_for_domains (hosts_for system.tools root) cfg domains root) [
          | err e ↦ err (no_build e)
          | ok checks ↦ if is_empty checks then err no_checks else ok (cfg, checks)
        ]
  ]

  -- `RenderJSONReport` or `RenderTableReport`
  unfoldable pub render : Text → JsonReportInput → Result Text Text
  unfolding render_json_report
  render format input =
      if text_eq format (codes "json")
      then render_json_report system.encode_json input
      else render_table_report system.table input

  -- `reportInput` of `runCheck`
  unfoldable pub report_input :
      CheckFlags → Text → Text → Contract → Time → List CheckResult → W → JsonReportInput × W
  unfolding sub_time milliseconds
  report_input flags root input cfg started_at results w =
      let (named, w1) = system.hostname w in
      let host : Text = elim named [
        | err _ ↦ codes "unknown-host"
        | ok name ↦ if text_eq name [] then codes "unknown-host" else name
      ] in
      let (run_id, w2) = system.run_id started_at w1 in
      let (ended_at, w3) = system.engine_host.now w2 in
      (
        record {
          tool_version = system.version;
          contract_version = cfg.api_version;
          contract_hash = system.hash_contract input;
          run_id = run_id;
          target = cfg.metadata.target;
          host = host;
          host_root = root;
          started_at = started_at;
          duration_ms = milliseconds (sub_time ended_at started_at);
          include_raw = flags.include_raw;
          results = results;
        },
        w3,
      )

  -- The rest of `runCheck` behind the results of the engine
  unfoldable pub report : CheckFlags → Text → Text → Contract → Time → List CheckResult → W → ℕ × W
  unfolding report_input render exit_code_for_results
  report flags root input cfg started_at results w =
      let (reported, w1) = report_input flags root input cfg started_at results w in
      elim (render flags.format reported) [
        | err _ ↦ (3, w1)
        | ok text ↦
            let (written, w2) = system.write text w1 in
            (if written then exit_code_for_results results else 3, w2)
      ]

  -- `runCheck` from the checks on
  unfoldable pub run_checks : CheckFlags → Text → Text → Contract → List (Check W) → W → ℕ × W
  unfolding run report
  run_checks flags root input cfg checks w =
      let (started_at, w1) = system.engine_host.now w in
      let engine : Engine = record { collector_timeout = flags.collector_timeout } in
      elim (run system.engine_host engine system.background checks w1) [
        | err _ ↦ (3, w1)
        | ok (results, w2) ↦ report flags root input cfg started_at results w2
      ]

  -- `runCheck` from the contract's bytes on
  unfoldable pub check_contract : CheckFlags → Text → Text → W → ℕ × W
  unfolding checks_of run_checks
  check_contract flags root input w = elim (checks_of flags root input) [
    | err _ ↦ (3, w)
    | ok (cfg, checks) ↦ run_checks flags root input cfg checks w
  ]

  -- `runCheck` from the host root on
  unfoldable pub check_file : CheckFlags → W → ℕ × W
  unfolding normalize_host_root check_contract
  check_file flags w =
      let (root, w1) = normalize_host_root flags.host_root w in
      let (bytes, w2) = system.read_file flags.contract w1 in
      elim root [
        | none ↦ (3, w1)
        | some r ↦
            if format_supported flags.format
            then elim bytes [ err _ ↦ (3, w2) | ok input ↦ check_contract flags r input w2 ]
            else (3, w1)
      ]

  -- `runCheck`
  unfoldable pub run_check : List Text → W → ℕ × W
  unfolding flags_accepted check_file
  run_check args w = elim (system.parse_check_flags args) [
    | none ↦ (3, w)
    | some (flags, rest) ↦ if flags_accepted flags rest then check_file flags w else (3, w)
  ]

  -- `runValidate`
  unfoldable pub run_validate : List Text → W → ℕ × W
  run_validate args w = elim (system.parse_validate_flags args) [
    | none ↦ (3, w)
    | some (contract, rest) ↦
        let (parsed, w1) = parse_file system.upper system.read_file contract w in
        let code : ℕ = elim parsed [ err _ ↦ 3 | ok _ ↦ 0 ] in
        if text_eq contract [] || not (is_empty rest) then (3, w) else (code, w1)
  ]

  -- `run`
  unfoldable pub run_command : List Text → W → ℕ × W
  run_command [] w = (3, w)
  run_command (command ∷ args) w =
      if text_eq command (codes "check")
      then run_check args w
      else if text_eq command (codes "validate")
      then run_validate args w
      else if text_eq command (codes "version")
          || (text_eq command (codes "-v") || text_eq command (codes "--version"))
      then (0, w)
      else if text_eq command (codes "-h")
          || (text_eq command (codes "--help") || text_eq command (codes "help"))
      then (0, w)
      else (3, w)
