-- ===== src/Tests/Identifying.antt =====
-- The identity of a process, in a world that is the maps of the two readers.
use savk.Text.Number.{atoi}
use savk.Text.Ops.{cut, split}
use savk.Text.Order.{sort_strings, text_leb}
use savk.Text.{text_eq}
use savk.Base.{◌≡◌, refl, ◌&&◌, is_none, true, false, List, [], ◌∷◌, none, some, ok, arith}
use savk.Base.Int.{pos}
use savk.Text.{Text, codes}
use savk.Text.Order.{contains}
use savk.Text.Number.{parse_uint}
use savk.Text.Space.{trim_space}
use savk.Contract.Schema.{IdentitySpec}
use savk.Engine.{Context}
use savk.Collectors.Systemctl.{CommandResult, find_cached}
use savk.Collectors.Process.{
  ProcessStatus, no_status, capability_name, has_bit, parse_capability_mask,
}
use savk.Collectors.Process.Mask.{contains-parse_capability_mask}
use savk.Collectors.Identity.{MainPidResult, Observation, IdentityHost, uid}
use savk.Collectors.Identity.Observe.{observe, observe_each, observe-once}
use savk.Collectors.Identity.Run.{run_identity_check}
use savk.Collectors.Services.Run.Passing.{passes}
use savk.Collectors.Identity.Run.Passing.{observation_satisfies, run_identity_check-is_pass}

abbrev Maps : Type 0
Maps = List (Text × MainPidResult) × List (Text × Observation)

abbrev shown : CommandResult
shown = record {
  exit_code = pos 0;
  stdout = codes "LoadState=loaded\nMainPID=42\nControlGroup=/system.slice/app.service\n";
  stderr = [];
}

abbrev status : ProcessStatus
status = record no_status { uid = pos 33; cgroups = codes "/system.slice/app.service" ∷ [] }

abbrev host : IdentityHost Maps
host = record {
  runner = λ ctx argv w. ((shown, none), w);
  systemctl = ok (codes "/usr/bin/systemctl");
  process_reader = λ ctx pid w. ((status, none), w);
  main_pids = record { get = λ w. w.0; set = λ s w. (s, w.1) };
  observations = record { get = λ w. w.1; set = λ s w. (w.0, s) };
  now = λ w. (7, w);
  lower = λ s. s;
}

abbrev background : Context
background = record { failure = none; has_deadline = false }

abbrev spec : IdentitySpec
spec = record {
  service = codes "app.service";
  uid = some (pos 33);
  gid = none;
  capabilities = none;
}

abbrev others : List (Context × Text)
others = (background, codes "other.service") ∷ (background, spec.service) ∷ []

observe-once_example :
    observe host background spec.service
      (observe_each host others (observe host background spec.service ([], [])).1)
    ≡ (
      (observe host background spec.service ([], [])).0,
      observe_each host others (observe host background spec.service ([], [])).1,
    )
observe-once_example =
    observe-once host background background spec.service others ([], [])
      (record {
        cell = λ s w. refl;
        runner = λ ctx command w. refl;
        process_reader = λ ctx pid w. refl;
        main_pids = λ pids w. refl;
      })

run_identity_check-is_pass_example :
    passes (run_identity_check host uid spec background ([], [])).0
    ≡ (is_none background.failure && observation_satisfies host uid spec background ([], []))
unfolding find_cached
run_identity_check-is_pass_example =
    run_identity_check-is_pass host uid spec background ([], []) refl

abbrev mask_text : Text
mask_text = codes "0000000000000401"

mask_read : parse_uint 16 64 (trim_space mask_text) ≡ some 1025
unfolding parse_uint trim_space codes
mask_read = refl

abbrev two_names : List Text
two_names = codes "CAP_CHOWN" ∷ codes "CAP_NET_BIND_SERVICE" ∷ []

mask_parsed : parse_capability_mask mask_text ≡ ok two_names
unfolding parse_capability_mask text_eq trim_space codes parse_uint sort_strings text_leb
mask_parsed = refl

contains-parse_capability_mask_example : contains (capability_name 10) two_names ≡ has_bit 1025 10
contains-parse_capability_mask_example =
    contains-parse_capability_mask mask_text 1025 two_names 10 mask_read mask_parsed (omega arith)

identity_passes : passes (run_identity_check host uid spec background ([], [])).0 ≡ true
unfolding find_cached passes run_identity_check split text_eq trim_space codes cut atoi
identity_passes = refl
