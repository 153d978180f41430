-- ===== src/Tests/Commanding.antt =====
-- A run of the command `check`.
use savk.Text.FilePath.{join_paths}
use savk.Collectors.Paths.{path_kinds}
use savk.Collectors.Build.{build}
use savk.Collectors.Paths.Run.{build_path_checks}
use savk.Text.Space.{trim_space}
use savk.Text.Order.{contains, sort_strings}
use savk.Text.Ops.{split}
use savk.CommandLine.{filter_domains}
use savk.Contract.Parse.{check_identities}
use savk.Base.{err, none, ℕ, ◌≡◌, ◌≢◌, refl, true, false, List, [], ◌∷◌, ◌++◌, some, ok}
use savk.Base.Int.{pos}
use savk.Text.{Text, text_eq, codes}
use savk.Contract.Schema.{Contract}
use savk.Engine.{Check}
use savk.CommandLine.Command.{
  CheckFlags, System, flags_accepted, format_supported, normalize_host_root, run_check,
  check_contract, render,
}
use savk.CommandLine.Command.Passing.{IsPlan, HasRun, run_check-HasRun}
use savk.Tests.Building.{service_host, identity_host}
use savk.Collectors.Filesystem.{AccountHost, resolve_path}
use savk.Text.FilePath.{is_abs, clean}
use savk.Contract.Schema.{PathSpec, SocketSpec}
use savk.Contract.Decode.Valid.{AllValid}
use savk.CommandLine.Tools.Below.{LooksBelow, hosts_for-LooksBelow}
use savk.CommandLine.Tools.{Tools, other_runner, hosts_for}
use savk.Tests.Reading.{input, to_upper, input_read, a_contract}
use savk.Tests.Collecting.{disk, probe}
use savk.CommandLine.{selected_domains}
use savk.CommandLine.Paths.{path_checks}
use savk.CommandLine.Build.{systemd_checks, build_checks_for_domains}
use savk.CommandLine.Command.Total.{CanReport, check_contract-ne_three}
use savk.Tests.Scheduling.{clock, background}

abbrev check_flags : CheckFlags
check_flags = record {
  contract = codes "savk.yaml";
  format = codes "json";
  domain = codes "paths";
  collector_timeout = pos 5;
  host_root = [];
  include_raw = false;
}

abbrev accounts : AccountHost ℕ
accounts = record {
  open_file = λ path w. (err (codes "none"), w);
  quoted = λ s. s;
  uint_error = λ s. s;
  loaded = record { get = λ w. record { passwd = none; group = none }; set = λ s w. w };
}

abbrev tools : Tools ℕ
tools = record {
  path_checker = record { stat = disk.lstat; lstat = disk.lstat };
  path_accounts = accounts;
  socket_accounts = accounts;
  service_accounts = accounts;
  state_accounts = accounts;
  command_runner = other_runner service_host.runner;
  look_path = ok (codes "/usr/bin/systemctl");
  process_reader = identity_host.process_reader;
  service_units = service_host.units;
  state_units = service_host.units;
  main_pids = identity_host.main_pids;
  observations = identity_host.observations;
  probe = probe;
  now = disk.now;
  context_text = disk.context_text;
  lower = service_host.lower;
  upper = service_host.upper;
}

abbrev system : System ℕ
system = record {
  parse_check_flags = λ args. some (check_flags, []);
  parse_validate_flags = λ args. some (codes "savk.yaml", []);
  is_dir = λ path w. (ok true, w);
  read_file = λ path w. (ok input, w);
  hostname = λ w. (ok (codes "host"), w);
  run_id = λ t w. (codes "run", w);
  hash_contract = λ s. s;
  encode_json = λ report. ok (codes "report");
  table = record { format_time = λ t. []; align = λ s. ok s };
  write = λ s w. (true, w);
  version = codes "0.1.5";
  upper = to_upper;
  background = background;
  engine_host = clock;
  tools = tools;
}

abbrev planned : List (Check ℕ)
planned =
    path_checks (hosts_for tools []).path_host probe [] a_contract
    ++ systemd_checks (hosts_for tools []) a_contract (codes "paths" ∷ [])

planned_built :
    build_checks_for_domains
      (hosts_for tools [])
      a_contract
      (selected_domains a_contract check_flags.domain)
      []
    ≡ ok planned
unfolding build_checks_for_domains selected_domains text_eq codes check_identities filter_domains
    split hosts_for
planned_built = refl

plan : IsPlan system check_flags [] input a_contract planned
unfolding selected_domains text_eq codes path_checks sort_strings filter_domains split trim_space
    contains build_path_checks build path_kinds
plan = record {
  parsed = input_read;
  built = planned_built;
  some_domain = refl;
  some_check = refl;
  rooted = refl;
}

reporting : CanReport system check_flags.format
unfolding render codes text_eq
reporting = record {
  renders = λ report. (codes "report" ++ (b'\n' ∷ []), refl);
  writes = λ text w. refl;
}

check_contract-ne_three_example : (check_contract system check_flags [] input 0).0 ≢ 3
check_contract-ne_three_example =
    check_contract-ne_three system check_flags [] input a_contract planned 0 plan reporting

check_code : (run_check system [] 0).0 ≢ 3
unfolding run_check codes text_eq format_supported
check_code = check_contract-ne_three system check_flags [] input a_contract planned 0 plan reporting

run_check-HasRun_example :
    (flags : CheckFlags) × (rest : List Text) × (root : Text) × (bytes : Text) × (c : Contract)
    × (checks : List (Check ℕ)) × (system.parse_check_flags [] ≡ some (flags, rest))
    × (flags_accepted flags rest ≡ true)
    × (format_supported flags.format ≡ true)
    × ((normalize_host_root system flags.host_root 0).0 ≡ some root)
    × ((system.read_file flags.contract (normalize_host_root system flags.host_root 0).1).0
        ≡ ok bytes)
    × IsPlan system flags root bytes c checks
    × HasRun system flags checks (run_check system [] 0).0
run_check-HasRun_example = run_check-HasRun system [] 0 check_code

abbrev root : Text
root = codes "/host/../srv"

root_abs : is_abs root ≡ true
unfolding is_abs codes
root_abs = refl

-- A name that climbs is resolved below the root.
name_resolved : resolve_path (clean root) (codes "/etc/../../passwd") ≡ codes "/srv/passwd"
unfolding resolve_path text_eq clean join_paths
name_resolved = refl

hosts_for-LooksBelow_example :
    AllValid
      (λ (k : Text) (s : PathSpec).
        LooksBelow tools.path_checker root (hosts_for tools root).path_host k)
      a_contract.paths
    × AllValid
        (λ (k : Text) (s : SocketSpec).
          LooksBelow tools.path_checker root (hosts_for tools root).socket_host k)
        a_contract.sockets
hosts_for-LooksBelow_example =
    hosts_for-LooksBelow tools root root_abs to_upper input a_contract input_read
