-- ===== src/Collectors/Services/Run/Passing.antt =====
-- When a service check passes.
use savk.Base.{
  ℕ, ◌≡◌, refl, ◌∙◌, Bool, false, ◌&&◌, List, Option, none, some, Result, ok, err, arith, is_none,
}
use savk.Base.Int.{pos, int_eq}
use savk.Text.{Text, text_eq, codes}
use savk.Evidence.{is_pass}
use savk.Contract.Schema.{ServiceSpec}
use savk.Engine.{Context, Outcome, returned, panicked}
use savk.Collectors.Systemctl.{
  CollectorError, CommandResult, property, equal_strings, find_cached, parse_systemctl_show,
}
use savk.Collectors.Services.{
  ServiceUnit, ServiceHost, ServiceKind, state, restart, run_as_user, run_as_group, capabilities,
  unit_command, observed_service_user, observed_service_group,
}
use savk.Collectors.Services.Read.{read_unit, unit_of_command, unit_without_command}
use savk.Collectors.Services.Run.{
  service_result, compare_service, compare_account, run_state, run_restart, run_user, run_group,
  run_capabilities, observed_capabilities, run_service_check,
}
use savk.Collectors.Services.Failures.{
  service_error, service_failure, service_insufficient_data, service_unsupported_environment,
  expected_capabilities,
}

-- A call that panics does not pass.
unfoldable pub passes : Outcome → Bool
unfolding is_pass
passes (returned r) = is_pass r.status
passes (panicked s) = false

-- An account is the one that is asked for.
abbrev pub is_account : Text → Result Text Text → Bool
is_account expected (err e) = false
is_account expected (ok name) = text_eq name expected

-- What a unit has to satisfy.
unfoldable pub is_unit_satisfied :
    {W : Type 0} → ServiceHost W → ServiceKind → ServiceSpec → ServiceUnit → W → Bool
unfolding property observed_service_user observed_service_group equal_strings
is_unit_satisfied host state spec u w =
    text_eq (property u.properties (codes "ActiveState")) spec.state
is_unit_satisfied host restart spec u w = elim spec.restart [
  | none ↦ false
  | some expected ↦ text_eq (property u.properties (codes "Restart")) expected
]
is_unit_satisfied host run_as_user spec u w = elim spec.run_as [
  | none ↦ false
  | some expected ↦ is_account expected.user (observed_service_user host.resolver u w).0
]
is_unit_satisfied host run_as_group spec u w = elim spec.run_as [
  | none ↦ false
  | some expected ↦ is_account expected.group (observed_service_group host.resolver u w).0
]
is_unit_satisfied host capabilities spec u w =
    equal_strings (expected_capabilities spec) (observed_capabilities host u)

service_failure-is_pass :
    (command : List Text) (name : Text) (u : ServiceUnit) (e : CollectorError) (t : ℕ)
    → is_pass (service_failure command name u e t).status ≡ false
unfolding service_failure is_pass service_error service_unsupported_environment
service_failure-is_pass command name u e t = ground arith

module _ {W : Type 0} (host : ServiceHost W) where
  -- A service check passes just when its context has not ended, the unit is read without an error,
  -- and it shows what the spec asks for: the state, the restart policy, the user, the group or the
  -- ambient capabilities.
  pub run_service_check-is_pass :
      (k : ServiceKind) (name : Text) (spec : ServiceSpec) (ctx : Context) (w : W)
      → passes (run_service_check host k name spec ctx w).0 ≡ (
          is_none ctx.failure
          && (is_none (read_unit host ctx name w).0.failure
              && is_unit_satisfied host k spec
                  (read_unit host ctx name w).0
                  (read_unit host ctx name w).1))
  unfolding run_service_check service_error passes is_pass is_unit_satisfied run_state run_restart
      run_user run_group run_capabilities compare_service compare_account service_result
      service_insufficient_data
  run_service_check-is_pass state name spec ctx w = ground (
    arith,
    service_failure-is_pass (unit_command host.systemctl name) name (read_unit host ctx name w).0,
  )
  run_service_check-is_pass restart name spec ctx w = ground (
    arith,
    service_failure-is_pass (unit_command host.systemctl name) name (read_unit host ctx name w).0,
  )
  run_service_check-is_pass run_as_user name spec ctx w = ground (
    arith,
    service_failure-is_pass (unit_command host.systemctl name) name (read_unit host ctx name w).0,
  )
  run_service_check-is_pass run_as_group name spec ctx w = ground (
    arith,
    service_failure-is_pass (unit_command host.systemctl name) name (read_unit host ctx name w).0,
  )
  run_service_check-is_pass capabilities name spec ctx w = ground (
    arith,
    service_failure-is_pass (unit_command host.systemctl name) name (read_unit host ctx name w).0,
  )

-- What a command has to show of the state: it runs, exits with 0, and prints the properties of a
-- unit that is found, of which the last line for ActiveState has the state.
unfoldable pub shows_state : Text → CommandResult × Option CollectorError → Bool
unfolding parse_systemctl_show property
shows_state expected (result, some e) = false
shows_state expected (result, none) =
    int_eq result.exit_code (pos 0) && (elim (parse_systemctl_show result.stdout) [
      | err e ↦ false
      | ok ps ↦ text_eq (property ps (codes "ActiveState")) expected
    ])

shows_state-unit_of_command :
    {W : Type 0} (host : ServiceHost W) (spec : ServiceSpec)
    (outcome : CommandResult × Option CollectorError) (w : W)
    → (is_none (unit_of_command host.lower outcome).failure
        && is_unit_satisfied host state spec (unit_of_command host.lower outcome) w)
      ≡ shows_state spec.state outcome
unfolding unit_of_command shows_state is_unit_satisfied
shows_state-unit_of_command host spec (result, some e) w = refl
shows_state-unit_of_command host spec (result, none) w = ground arith

-- The state check of a service that has not been read yet passes just when its context has not
-- ended, systemctl is found where it may be, and running it there shows the state that the spec asks
-- for.
pub run_state_check-is_pass :
    {W : Type 0} (host : ServiceHost W) (name : Text) (spec : ServiceSpec) (ctx : Context) (w : W)
    → find_cached name (host.units.get w) ≡ none
    → passes (run_service_check host state name spec ctx w).0 ≡ (
        is_none ctx.failure && (elim host.systemctl [
          | err e ↦ false
          | ok path ↦
              shows_state spec.state (host.runner ctx (unit_command host.systemctl name) w).0
        ]))
unfolding read_unit unit_without_command
run_state_check-is_pass host name spec ctx w new =
    run_service_check-is_pass host state name spec ctx w
    ∙ ground (
      arith,
      shows_state-unit_of_command host spec (host.runner ctx (unit_command host.systemctl name) w).0
          (read_unit host ctx name w).1,
    )
