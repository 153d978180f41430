-- ===== src/Collectors/Identity/MainPid.antt =====
-- internal/collectors/identity.go: the reader of the main process of a service.
use savk.Base.{not, List, [], ◌∷◌, Option, none, some, Result, ok, err, ◌>>=◌, if◌then◌else◌}
use savk.Base.Int.{ℤ, pos, is_positive, int_eq}
use savk.Text.{Text, text_eq, codes}
use savk.Text.Number.{atoi}
use savk.Text.Space.{trim_space}
use savk.Engine.{Context}
use savk.Collectors.Systemctl.{
  CollectorError, err_service_not_found, err_main_pid_parse, CommandResult, property, find_cached,
  error_text, program, parse_systemctl_properties, map_systemctl_failure, combined_output,
}
use savk.Collectors.Identity.{MainPidResult, IdentityHost}

-- `command` of a `serviceMainPIDReader`
unfoldable pub main_pid_command : Result CollectorError Text → Text → List Text
unfolding program
main_pid_command systemctl service =
    program systemctl
    ∷ codes "show"
    ∷ service
    ∷ codes "--property=LoadState"
    ∷ codes "--property=MainPID"
    ∷ codes "--property=ControlGroup"
    ∷ []

-- `parseSystemctlMainPID`: the process and its control group.
unfoldable pub parse_systemctl_main_pid : Text → Result CollectorError (ℤ × Text)
unfolding parse_systemctl_properties property
parse_systemctl_main_pid stdout = do
  ps ←
      parse_systemctl_properties stdout
        (codes "LoadState" ∷ codes "MainPID" ∷ codes "ControlGroup" ∷ [])
  let group = trim_space (property ps (codes "ControlGroup"))
  if text_eq (property ps (codes "LoadState")) (codes "not-found")
      then err err_service_not_found
      else elim (atoi (trim_space (property ps (codes "MainPID")))) [
        | none ↦ err err_main_pid_parse
        | some pid ↦
            if not (is_positive pid)
            then err err_main_pid_parse
            else if text_eq group []
            then err err_main_pid_parse
            else ok (pid, group)
      ]

-- A result without a process.
abbrev pub main_pid_failure : List Text → ℤ → Text → CollectorError → MainPidResult
main_pid_failure command exit_code raw e = record {
  pid = pos 0;
  control_group = [];
  command = command;
  exit_code = exit_code;
  raw = raw;
  failure = some e;
}

-- The result of a command that has run.
unfoldable pub main_pid_of_command :
    (Text → Text) → List Text → CommandResult × Option CollectorError → MainPidResult
unfolding combined_output map_systemctl_failure parse_systemctl_main_pid
main_pid_of_command lower command (result, some e) =
    main_pid_failure command result.exit_code (combined_output result) e
main_pid_of_command lower command (result, none) =
    let raw = combined_output result in
    if not (int_eq result.exit_code (pos 0))
    then main_pid_failure command result.exit_code raw (map_systemctl_failure lower result)
    else elim (parse_systemctl_main_pid result.stdout) [
      | err e ↦ main_pid_failure command result.exit_code raw e
      | ok (pid, group) ↦ record {
        pid = pid;
        control_group = group;
        command = command;
        exit_code = result.exit_code;
        raw = raw;
        failure = none;
      }
    ]

module _ {W : Type 0} (host : IdentityHost W) where
  -- `store` of a `serviceMainPIDReader`
  unfoldable pub store_main_pid : Text → MainPidResult → W → MainPidResult × W
  store_main_pid service r w = (r, host.main_pids.set ((service, r) ∷ host.main_pids.get w) w)

  -- `Read` of a `serviceMainPIDReader`; the error that it returns is the one in the result.
  unfoldable pub read_main_pid : Context → Text → W → MainPidResult × W
  unfolding find_cached store_main_pid main_pid_command main_pid_of_command error_text
  read_main_pid ctx service w =
      let command = main_pid_command host.systemctl service in
      elim (find_cached service (host.main_pids.get w)) [
        | some cached ↦ (cached, w)
        | none ↦ elim host.systemctl [
          | err e ↦ store_main_pid service (main_pid_failure command (pos 0) (error_text e) e) w
          | ok path ↦
              let (outcome, w') = host.runner ctx command w in
              store_main_pid service (main_pid_of_command host.lower command outcome) w'
        ]
      ]
