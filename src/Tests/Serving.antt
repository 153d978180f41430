-- ===== src/Tests/Serving.antt =====
-- Services that a systemctl shows, in a world that is the map of the reader.
use savk.Text.{text_eq}
use savk.Text.Ops.{cut, split}
use savk.Base.{◌∷◌, ◌≡◌, refl, ◌&&◌, is_none, true, false, List, [], ◌++◌, none, ok, err}
use savk.Base.Int.{pos}
use savk.Text.{Text, codes}
use savk.Evidence.{is_pass}
use savk.Contract.Schema.{ServiceSpec, SocketSpec}
use savk.Engine.{Context}
use savk.Collectors.Accounts.{AccountResolver}
use savk.Collectors.Sockets.{owner, run_socket_check}
use savk.Collectors.Sockets.Passing.{is_socket_satisfied, run_socket_check-is_pass}
use savk.Collectors.Systemctl.{CommandResult, CommandRunner, find_cached}
use savk.Collectors.Services.{ServiceUnit, ServiceHost, state, run_as_user, unit_command}
use savk.Collectors.Services.Read.{read_unit, read_units, read_unit-once}
use savk.Collectors.Services.Run.{run_service_check}
use savk.Collectors.Services.Run.Passing.{
  passes, is_unit_satisfied, run_service_check-is_pass, shows_state, run_state_check-is_pass,
}
use savk.Tests.Collecting.{disk}

abbrev Units : Type 0
Units = List (Text × ServiceUnit)

abbrev shown : CommandResult
shown = record {
  exit_code = pos 0;
  stdout =
      codes "LoadState=loaded\nActiveState=active\nRestart=always\n"
      ++ codes "User=app\nGroup=\nAmbientCapabilities=cap_net_bind_service\n";
  stderr = [];
}

abbrev runner : CommandRunner Units
runner = λ ctx argv w. ((shown, none), w)

abbrev resolver : AccountResolver Units
resolver = record {
  user_name = λ n w. (err (codes "none"), w);
  group_name = λ n w. (err (codes "none"), w);
  primary_group = λ user w. (ok user, w);
  user_value = λ value w. (ok value, w);
  group_value = λ value w. (ok value, w);
  passwd = codes "/etc/passwd";
  group = codes "/etc/group";
}

abbrev host : ServiceHost Units
host = record {
  runner = runner;
  systemctl = ok (codes "/usr/bin/systemctl");
  units = record { get = λ w. w; set = λ s w. s };
  resolver = resolver;
  now = λ w. (7, w);
  context_text = λ e. [];
  lower = λ s. s;
  upper = λ s. s;
}

abbrev background : Context
background = record { failure = none; has_deadline = false }

abbrev spec : ServiceSpec
spec = record { state = codes "active"; run_as = none; restart = none; capabilities = none }

abbrev name : Text
name = codes "app.service"

-- Reads of two services, behind one of the first.
abbrev reads : List (Context × Text)
reads = (background, codes "other.service") ∷ (background, name) ∷ []

read_unit-once_example :
    read_unit host background name (read_units host reads (read_unit host background name []).1) ≡ (
      (read_unit host background name []).0,
      read_units host reads (read_unit host background name []).1,
    )
read_unit-once_example =
    read_unit-once host background background name reads []
      (record { cell = λ s w. refl; runner = λ ctx command w. refl })

run_service_check-is_pass_example :
    passes (run_service_check host run_as_user name spec background []).0 ≡ (
      is_none background.failure
      && (is_none (read_unit host background name []).0.failure
          && is_unit_satisfied host run_as_user spec
              (read_unit host background name []).0
              (read_unit host background name []).1))
run_service_check-is_pass_example =
    run_service_check-is_pass host run_as_user name spec background []

run_state_check-is_pass_example :
    passes (run_service_check host state name spec background []).0 ≡ (
      is_none background.failure
      && shows_state spec.state (host.runner background (unit_command host.systemctl name) []).0)
unfolding find_cached
run_state_check-is_pass_example = run_state_check-is_pass host name spec background [] refl

abbrev socket_spec : SocketSpec
socket_spec = record { owner = codes "root"; group = []; mode = [] }

run_socket_check-is_pass_example :
    is_pass (run_socket_check disk owner (codes "/a") socket_spec background 5).0.status ≡ (
      is_none background.failure
      && is_socket_satisfied disk owner socket_spec
          (disk.lstat (codes "/a") 5).0
          (disk.lstat (codes "/a") 5).1)
run_socket_check-is_pass_example =
    run_socket_check-is_pass disk owner (codes "/a") socket_spec background 5

state_passes : passes (run_service_check host state name spec background []).0 ≡ true
unfolding find_cached passes run_service_check split text_eq cut
state_passes = refl
