-- ===== src/CommandLine/Command/Passing.antt =====
-- cmd/savk/main.go: what the exit code of `runCheck` says.
use savk.Base.{
  ℕ, ◌≡◌, ◌≢◌, true, false, not, ◌&&◌, List, [], some, ok, if◌then◌else◌, is_empty, every, arith,
  Option-cases, Result-cases, inl, inr,
}
use savk.Text.{Text, text_eq}
use savk.Evidence.{Time, CheckResult}
use savk.Contract.Schema.{Contract}
use savk.Contract.Parse.{parse_bytes}
use savk.Engine.{Check}
use savk.Engine.Run.{Engine, run}
use savk.Engine.Run.Passing.{IsReport, run-IsReport}
use savk.Reporters.Report.{exit_code_for_results}
use savk.Reporters.Report.Codes.{is_conclusive, is_no_failure, exit_code_for_results-eq}
use savk.CommandLine.{selected_domains, has_service_backed_domain}
use savk.CommandLine.Tools.{hosts_for}
use savk.CommandLine.Build.{build_checks_for_domains}
use savk.CommandLine.Command.{
  CheckFlags, System, checks_of, report, run_checks, check_contract, flags_accepted,
  format_supported, check_file, normalize_host_root, run_check,
}

module _ {W : Type 0} (system : System W) where
  -- The checks are those of the contract that the bytes hold, for the domains selected.
  pub record IsPlan (flags : CheckFlags) (root input : Text) (c : Contract)
      (checks : List (Check W)) : Type 0 where
    pub parsed : parse_bytes system.upper input ≡ ok c
    pub built :
        build_checks_for_domains
          (hosts_for system.tools root)
          c
          (selected_domains c flags.domain)
          root
        ≡ ok checks
    pub some_domain : is_empty (selected_domains c flags.domain) ≡ false
    pub some_check : is_empty checks ≡ false
    pub rooted :
        (not (text_eq root []) && has_service_backed_domain (selected_domains c flags.domain))
        ≡ false

  checks_of-IsPlan :
      (flags : CheckFlags) (root input : Text) (c : Contract) (checks : List (Check W))
      → checks_of system flags root input ≡ ok (c, checks)
      → IsPlan flags root input c checks
  unfolding checks_of
  checks_of-IsPlan flags root input c checks h =
      elim (Result-cases (parse_bytes system.upper input)) [
        | inl (e, failed) ↦ ground arith
        | inr (cfg, parsed) ↦
            let domains = selected_domains cfg flags.domain in
            elim (Result-cases
              (build_checks_for_domains (hosts_for system.tools root) cfg domains root)) [
                | inl (e, failed) ↦ ground arith
                | inr (out, built) ↦
                    let same : cfg ≡ c = ground arith in
                    let same_checks : out ≡ checks = ground arith in
                    rw (← same, ← same_checks)
                      (record {
                        parsed = parsed;
                        built = built;
                        some_domain = ground arith;
                        some_check = ground arith;
                        rooted = ground arith;
                      })
              ]
      ]

  report-code :
      (flags : CheckFlags) (root input : Text) (c : Contract) (started_at : Time)
      (results : List CheckResult) (w : W)
      → (report system flags root input c started_at results w).0 ≢ 3
      → (report system flags root input c started_at results w).0 ≡ exit_code_for_results results
  unfolding report
  report-code flags root input c started_at results w h = ground arith

  -- The engine ran the checks, and the code sums its results up.
  pub record HasRun (flags : CheckFlags) (checks : List (Check W)) (code : ℕ) : Type 0 where
    pub results : List CheckResult
    pub before : W
    pub after : W
    pub ran :
        run system.engine_host
          (record { collector_timeout = flags.collector_timeout })
          system.background
          checks
          before
        ≡ ok (results, after)
    pub reported : IsReport checks results
    pub summed_up : code ≡ (
        if every is_conclusive results then (if every is_no_failure results then 0 else 1) else 2)

  run_checks-HasRun :
      (flags : CheckFlags) (root input : Text) (c : Contract) (checks : List (Check W)) (w : W)
      → (run_checks system flags root input c checks w).0 ≢ 3
      → HasRun flags checks (run_checks system flags root input c checks w).0
  unfolding run_checks
  run_checks-HasRun flags root input c checks w h =
      let (started_at, v) = system.engine_host.now w in
      let e : Engine = record { collector_timeout = flags.collector_timeout } in
      elim (Result-cases (run system.engine_host e system.background checks v)) [
        | inl (e, failed) ↦ ground arith
        | inr ((results, v'), ran) ↦
            let summed_up = report-code flags root input c started_at results v' (ground arith) in
            record {
              results = results;
              before = v;
              after = v';
              ran = ran;
              reported =
                  run-IsReport system.engine_host e system.background checks v v' results ran;
              summed_up = ground (arith, exit_code_for_results-eq results);
            }
      ]

  check_contract-HasRun :
      (flags : CheckFlags) (root input : Text) (w : W)
      → (check_contract system flags root input w).0 ≢ 3
      → (c : Contract) × (checks : List (Check W)) × IsPlan flags root input c checks
        × HasRun flags checks (check_contract system flags root input w).0
  unfolding check_contract
  check_contract-HasRun flags root input w h =
      elim (Result-cases (checks_of system flags root input)) [
        | inl (e, failed) ↦ ground arith
        | inr ((c, checks), planned) ↦
            let code : (check_contract system flags root input w).0
                ≡ (run_checks system flags root input c checks w).0 =
              ground arith in
            (
              c,
              checks,
              checks_of-IsPlan flags root input c checks planned,
              rw code (run_checks-HasRun flags root input c checks w (ground arith)),
            )
      ]

  check_file-ne_three :
      (flags : CheckFlags) (w : W)
      → (check_file system flags w).0 ≢ 3
      → (root : Text) × (input : Text) × (v : W) × ((normalize_host_root system flags.host_root w).0
          ≡ some root)
        × ((system.read_file flags.contract (normalize_host_root system flags.host_root w).1).0
            ≡ ok input)
        × (format_supported flags.format ≡ true)
        × ((check_contract system flags root input v).0 ≢ 3)
        × ((check_file system flags w).0 ≡ (check_contract system flags root input v).0)
  unfolding check_file
  check_file-ne_three flags w h =
      let (root, w1) = normalize_host_root system flags.host_root w in
      let (bytes, w2) = system.read_file flags.contract w1 in
      elim (Option-cases root) [
        | inl none_root ↦ ground arith
        | inr (r, is_root) ↦ elim (Result-cases bytes) [
          | inl (e, failed) ↦ ground arith
          | inr (input, read) ↦
              (r, input, w2, is_root, read, ground arith, ground arith, ground arith)
        ]
      ]

  -- When `savk check` ends with another exit code than 3, then the flags were read, the host root was
  -- accepted, the file was read, its bytes parse as a contract, the checks are those of the contract
  -- for the domains selected, of both there is at least one, and the engine has returned a report
  -- with one result for each check. The code is 2 when some result is an error or lacks data, else 1
  -- when some result fails, else 0.
  pub run_check-HasRun :
      (args : List Text) (w : W)
      → (run_check system args w).0 ≢ 3
      → (flags : CheckFlags) × (rest : List Text) × (root : Text) × (input : Text) × (c : Contract)
        × (checks : List (Check W)) × (system.parse_check_flags args ≡ some (flags, rest))
        × (flags_accepted flags rest ≡ true)
        × (format_supported flags.format ≡ true)
        × ((normalize_host_root system flags.host_root w).0 ≡ some root)
        × ((system.read_file flags.contract (normalize_host_root system flags.host_root w).1).0
            ≡ ok input)
        × IsPlan flags root input c checks
        × HasRun flags checks (run_check system args w).0
  unfolding run_check
  run_check-HasRun args w h = elim (Option-cases (system.parse_check_flags args)) [
    | inl none_read ↦ ground arith
    | inr ((flags, rest), parsed) ↦
        let accepted : flags_accepted flags rest ≡ true = ground arith in
        let (root, input, v, rooted, read, format, ended, same) =
          check_file-ne_three flags w (ground arith) in
        let (c, checks, plan, ran) = check_contract-HasRun flags root input v ended in
        let code : (run_check system args w).0 ≡ (check_contract system flags root input v).0 =
          ground arith in
        (
          flags,
          rest,
          root,
          input,
          c,
          checks,
          parsed,
          accepted,
          format,
          rooted,
          read,
          plan,
          rw code ran,
        )
  ]
