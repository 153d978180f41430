-- ===== src/Tests/Building.antt =====
-- The checks of a contract that has been read.
use savk.Text.Space.{trim_space}
use savk.Text.Ops.{split}
use savk.CommandLine.{filter_domains}
use savk.Text.Order.{sort_strings, text_leb}
use savk.Text.{text_eq}
use savk.Base.{ℕ, ◌≡◌, refl, true, false, List, [], none, ok, err}
use savk.Base.Int.{pos}
use savk.Text.{Text, codes}
use savk.Text.Order.{contains}
use savk.Engine.{Check, validate_checks}
use savk.Collectors.Accounts.{Cell, AccountResolver}
use savk.Collectors.Process.{no_status}
use savk.Collectors.Services.{ServiceHost}
use savk.Collectors.Identity.{IdentityHost}
use savk.CommandLine.{selected_domains}
use savk.CommandLine.Build.{Hosts, unsupported_domain, build_checks_for_domains}
use savk.CommandLine.Build.Total.{
  is_supported, build_checks_for_domains-validate_checks, build_checks_for_domains-unsupported,
}
use savk.Tests.Collecting.{disk, probe}
use savk.Tests.Reading.{input, to_upper, a_contract, input_read}

-- A map that nothing is kept in.
abbrev forgetful : {A : Type 0} → Cell (List A) ℕ
forgetful = record { get = λ w. []; set = λ s w. w }

abbrev resolver : AccountResolver ℕ
resolver = record {
  user_name = λ n w. (err (codes "none"), w);
  group_name = λ n w. (err (codes "none"), w);
  primary_group = λ user w. (ok user, w);
  user_value = λ value w. (ok value, w);
  group_value = λ value w. (ok value, w);
  passwd = codes "/etc/passwd";
  group = codes "/etc/group";
}

abbrev pub service_host : ServiceHost ℕ
service_host = record {
  runner = λ ctx argv w. ((record { exit_code = pos 1; stdout = []; stderr = [] }, none), w);
  systemctl = ok (codes "systemctl");
  units = forgetful;
  resolver = resolver;
  now = λ w. (w, w);
  context_text = λ e. [];
  lower = λ s. s;
  upper = λ s. s;
}

abbrev pub identity_host : IdentityHost ℕ
identity_host = record {
  runner = service_host.runner;
  systemctl = ok (codes "systemctl");
  process_reader = λ ctx pid w. ((no_status, none), w);
  main_pids = forgetful;
  observations = forgetful;
  now = λ w. (w, w);
  lower = λ s. s;
}

abbrev hosts : Hosts ℕ
hosts = record {
  path_host = disk;
  socket_host = disk;
  service_host = service_host;
  state_host = service_host;
  identity_host = identity_host;
  probe = probe;
}

abbrev filter : Text
filter = codes "paths,services,identity"

abbrev wrong_filter : Text
wrong_filter = codes "paths,disks"

build_checks_for_domains-validate_checks_example :
    (checks : List (Check ℕ)) × (ordered : List (Check ℕ)) × (build_checks_for_domains hosts
        a_contract
        (selected_domains a_contract filter)
        []
      ≡ ok checks)
    × (validate_checks checks ≡ ok ordered)
unfolding selected_domains is_supported text_eq codes sort_strings filter_domains split trim_space
    contains text_leb
build_checks_for_domains-validate_checks_example =
    build_checks_for_domains-validate_checks hosts to_upper input filter [] a_contract input_read
      refl

build_checks_for_domains-unsupported_example :
    (d : Text) × (contains d (selected_domains a_contract wrong_filter) ≡ true)
    × (is_supported d ≡ false)
    × (build_checks_for_domains hosts a_contract (selected_domains a_contract wrong_filter) []
        ≡ err (unsupported_domain d))
unfolding selected_domains is_supported text_eq codes sort_strings filter_domains split trim_space
    contains text_leb
build_checks_for_domains-unsupported_example =
    build_checks_for_domains-unsupported hosts to_upper input wrong_filter [] a_contract input_read
      refl
