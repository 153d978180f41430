-- ===== src/Collectors/Systemctl/Runner.antt =====
-- internal/collectors/services.go: the runner of commands of the operating system.
use savk.Base.{false, List, [], ◌∷◌, Option, none, some}
use savk.Base.Int.{ℤ, pos}
use savk.Text.{Text, codes}
use savk.Engine.{Context}
use savk.Collectors.Systemctl.{
  CollectorError, foreign, CommandResult, CommandRunner, stable_locale_env,
}

-- An error of `cmd.Run()`: an `exec.ExitError` with its exit code, or another one.
pub data RunError : Type 0 where
  exited : ℤ → RunError
  failed : CollectorError → RunError

-- The environment of the process, and the run of a command with its arguments and its environment,
-- which gives the two outputs and the error.
pub record Exec (W : Type 0) : Type 0 where
  pub environ : W → List Text × W
  pub run : Context → Text → List Text → List Text → W → (Text × Text × Option RunError) × W

-- `fmt.Errorf("empty command")`
abbrev pub empty_command : CollectorError
empty_command = foreign (record {
  is_context = false;
  is_permission = false;
  is_not_exist = false;
  message = codes "empty command";
})

-- What `Run` returns for the outputs and the error of a command.
unfoldable pub command_outcome :
    Text → Text → Option RunError → CommandResult × Option CollectorError
command_outcome out errors none =
    (record { exit_code = pos 0; stdout = out; stderr = errors }, none)
command_outcome out errors (some (exited code)) =
    (record { exit_code = code; stdout = out; stderr = errors }, none)
command_outcome out errors (some (failed e)) =
    (record { exit_code = pos 0; stdout = out; stderr = errors }, some e)

-- `Run` of `OSCommandRunner`
unfoldable pub os_command_runner : {W : Type 0} → Exec W → CommandRunner W
unfolding command_outcome stable_locale_env
os_command_runner exec ctx [] w =
    ((record { exit_code = pos 0; stdout = []; stderr = [] }, some empty_command), w)
os_command_runner exec ctx (name ∷ args) w =
    let (env, w1) = exec.environ w in
    let ((out, errors, failure), w2) = exec.run ctx name args (stable_locale_env env) w1 in
    (command_outcome out errors failure, w2)
