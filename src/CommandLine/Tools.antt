-- ===== src/CommandLine/Tools.antt =====
-- cmd/savk/main.go: what `buildChecksForDomains` makes its collectors of.
pub mod Below
use savk.Base.{Bool, true, false, List, [], Result}
use savk.Text.{Text}
use savk.Evidence.{Time}
use savk.Engine.{ContextError}
use savk.Collectors.Accounts.{Cell}
use savk.Collectors.Preflight.{ProbeHost}
use savk.Collectors.Filesystem.{
  PathChecker, AccountHost, new_account_resolver, path_host, path_checker_for,
}
use savk.Collectors.Systemctl.{CommandRunner, resolve_systemctl_path_for_runner}
use savk.Collectors.Systemctl.Runner.{Exec, os_command_runner}
use savk.Collectors.Services.{ServiceHost, ServiceUnit}
use savk.Collectors.Process.{ProcessReader}
use savk.Collectors.Identity.{IdentityHost, MainPidResult, Observation}
use savk.CommandLine.Build.{Hosts}

-- A value of the type `CommandRunner`, as type switches see it: an `OSCommandRunner`, or another one.
pub data AnyCommandRunner (W : Type 0) : Type 0 where
  os_runner : Exec W → AnyCommandRunner W
  other_runner : CommandRunner W → AnyCommandRunner W

-- `newPathChecker` and the other variables of the program, with what the collectors read beside them.
-- Each `Build...Checks` makes readers of its own, of which the objects are given here; `look_path` is
-- what `exec.LookPath` finds for "systemctl".
pub record Tools (W : Type 0) : Type 0 where
  pub path_checker : PathChecker W
  pub path_accounts : AccountHost W
  pub socket_accounts : AccountHost W
  pub service_accounts : AccountHost W
  pub state_accounts : AccountHost W
  pub command_runner : AnyCommandRunner W
  pub look_path : Result Text Text
  pub process_reader : ProcessReader W
  pub service_units : Cell (List (Text × ServiceUnit)) W
  pub state_units : Cell (List (Text × ServiceUnit)) W
  pub main_pids : Cell (List (Text × MainPidResult)) W
  pub observations : Cell (List (Text × Observation)) W
  pub probe : ProbeHost W
  pub now : W → Time × W
  pub context_text : ContextError → Text
  pub lower : Text → Text
  pub upper : Text → Text

module _ {W : Type 0} where
  unfoldable pub is_os_runner : AnyCommandRunner W → Bool
  is_os_runner (os_runner exec) = true
  is_os_runner (other_runner runner) = false

  -- The method `Run`
  unfoldable pub runner_of : AnyCommandRunner W → CommandRunner W
  unfolding os_command_runner
  runner_of (os_runner exec) = os_command_runner exec
  runner_of (other_runner runner) = runner

  -- The reader and the resolver that `buildServiceChecksWithResolver` makes.
  unfoldable pub service_host_of :
      Tools W → AccountHost W → Cell (List (Text × ServiceUnit)) W → ServiceHost W
  unfolding is_os_runner runner_of resolve_systemctl_path_for_runner new_account_resolver
  service_host_of tools accounts units = record {
    runner = runner_of tools.command_runner;
    systemctl =
        resolve_systemctl_path_for_runner tools.look_path (is_os_runner tools.command_runner);
    units = units;
    resolver = new_account_resolver accounts [];
    now = tools.now;
    context_text = tools.context_text;
    lower = tools.lower;
    upper = tools.upper;
  }

  -- The readers that `BuildIdentityChecks` makes.
  unfoldable pub identity_host_of : Tools W → IdentityHost W
  unfolding is_os_runner runner_of resolve_systemctl_path_for_runner
  identity_host_of tools = record {
    runner = runner_of tools.command_runner;
    systemctl =
        resolve_systemctl_path_for_runner tools.look_path (is_os_runner tools.command_runner);
    process_reader = tools.process_reader;
    main_pids = tools.main_pids;
    observations = tools.observations;
    now = tools.now;
    lower = tools.lower;
  }

  -- The collectors' hosts for a host root that may be empty.
  unfoldable pub hosts_for : Tools W → Text → Hosts W
  unfolding path_host path_checker_for service_host_of identity_host_of
  hosts_for tools host_root =
      let checker = path_checker_for host_root tools.path_checker in
      record {
        path_host = path_host tools.path_accounts checker tools.now tools.context_text;
        socket_host = path_host tools.socket_accounts checker tools.now tools.context_text;
        service_host = service_host_of tools tools.service_accounts tools.service_units;
        state_host = service_host_of tools tools.state_accounts tools.state_units;
        identity_host = identity_host_of tools;
        probe = tools.probe;
      }
