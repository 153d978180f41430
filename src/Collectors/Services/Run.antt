-- ===== src/Collectors/Services/Run.antt =====
-- internal/collectors/services.go: `Run` of a service check, and `BuildServiceChecks`.
pub mod Passing
use savk.Base.{
  Bool, true, false, ◌||◌, List, [], ◌∷◌, ◌++◌, Option, none, some, Result, ok, err, if◌then◌else◌,
}
use savk.Base.Int.{ℤ, pos, int_eq}
use savk.Text.{Text, text_eq, codes}
use savk.Text.Space.{fields}
use savk.Evidence.{
  Time, EvalStatus, pass, fail, error, insufficient_data, ReasonCode, reasonless, timeout,
  permission_denied, not_found, parse_error, namespace_isolation, Evidence, Value, absent, text,
  texts, CheckResult,
}
use savk.Contract.Schema.{ServiceSpec, RunAsSpec}
use savk.Capabilities.{sort_canonical, normalize_observed}
use savk.Engine.{ContextError, Context, Outcome, returned, panicked, Check}
use savk.Collectors.Paths.Results.{path_result}
use savk.Collectors.Build.{build}
use savk.Collectors.Systemctl.{
  CollectorError, err_service_not_found, err_namespace_isolation, err_permission_denied,
  err_service_parse, err_command_unavailable, err_unexpected_command, foreign, property, error_text,
  is_context_error, describe_environment_error, equal_strings, shown_strings,
}
use savk.Collectors.Services.{
  ServiceUnit, ServiceHost, ServiceKind, state, restart, run_as_user, run_as_group, capabilities,
  service_id, service_prerequisites, unit_command, unit_exit_code, observed_service_user,
  observed_service_group, service_kinds,
}
use savk.Collectors.Services.Read.{read_unit}
use savk.Collectors.Services.Failures.{
  nil_dereference, service_evidence, service_error, service_insufficient_data, service_failure,
  expected_capabilities,
}

module _ {W : Type 0} (host : ServiceHost W) where
  -- `result`
  unfoldable pub service_result :
      Text → ServiceUnit → EvalStatus → Value → Value → Text → W → Outcome × W
  unfolding unit_command
  service_result name u status expected observed message w =
      let (t, w') = host.now w in
      (
        returned (
            path_result status reasonless expected observed
              (service_evidence (codes "systemctl show") t (unit_command host.systemctl name)
                (some u.exit_code) u.raw)
              message),
        w',
      )

  -- The comparison of a text: `what` is what it is called in each of the two messages.
  unfoldable pub compare_service : Text → ServiceUnit → Text → Text → Text → W → Outcome × W
  unfolding service_result
  compare_service name u what expected observed w =
      if text_eq observed expected
      then service_result name u pass (text expected) (text observed)
          (codes "service " ++ (what ++ (codes " matches " ++ expected))) w
      else service_result name u fail (text expected) (text observed)
          (codes "expected "
            ++ (what ++ (codes " " ++ (expected ++ (codes ", observed " ++ observed)))))
          w

  -- `runState`
  unfoldable pub run_state : Text → ServiceSpec → ServiceUnit → W → Outcome × W
  unfolding compare_service property
  run_state name spec u w =
      compare_service name u (codes "state") spec.state
        (property u.properties (codes "ActiveState")) w

  -- `runRestart`
  unfoldable pub run_restart : Text → ServiceSpec → ServiceUnit → W → Outcome × W
  unfolding compare_service property
  run_restart name spec u w = elim spec.restart [
    | none ↦ (panicked nil_dereference, w)
    | some expected ↦
        compare_service name u (codes "restart policy") expected
          (property u.properties (codes "Restart")) w
  ]

  -- The comparison of an account, or that it cannot be resolved.
  unfoldable pub compare_account :
      Text → ServiceUnit → Text → Text → Result Text Text → W → Outcome × W
  unfolding service_result unit_command unit_exit_code service_insufficient_data
  compare_account name u what expected (err e) w =
      let (t, w') = host.now w in
      (
        returned (
            service_insufficient_data
              (codes "unable to resolve effective service " ++ (what ++ (codes " for " ++ name)))
              (unit_command host.systemctl name) (unit_exit_code u) u.raw t),
        w',
      )
  compare_account name u what expected (ok observed) w =
      if text_eq observed expected
      then service_result name u pass (text expected) (text observed)
          (codes "service " ++ (what ++ (codes " matches " ++ expected))) w
      else service_result name u fail (text expected) (text observed)
          (codes "expected service "
            ++ (what ++ (codes " " ++ (expected ++ (codes ", observed " ++ observed)))))
          w

  -- `runUser`
  unfoldable pub run_user : Text → ServiceSpec → ServiceUnit → W → Outcome × W
  unfolding compare_account observed_service_user
  run_user name spec u w = elim spec.run_as [
    | none ↦ (panicked nil_dereference, w)
    | some expected ↦
        let (observed, w') = observed_service_user host.resolver u w in
        compare_account name u (codes "user") expected.user observed w'
  ]

  -- `runGroup`
  unfoldable pub run_group : Text → ServiceSpec → ServiceUnit → W → Outcome × W
  unfolding compare_account observed_service_group
  run_group name spec u w = elim spec.run_as [
    | none ↦ (panicked nil_dereference, w)
    | some expected ↦
        let (observed, w') = observed_service_group host.resolver u w in
        compare_account name u (codes "group") expected.group observed w'
  ]

  unfoldable pub observed_capabilities : ServiceUnit → List Text
  unfolding normalize_observed fields property
  observed_capabilities u =
      normalize_observed host.upper (fields (property u.properties (codes "AmbientCapabilities")))

  -- `runCapabilities`
  unfoldable pub run_capabilities : Text → ServiceSpec → ServiceUnit → W → Outcome × W
  unfolding service_result expected_capabilities observed_capabilities equal_strings shown_strings
  run_capabilities name spec u w =
      let expected = expected_capabilities spec in
      let observed = observed_capabilities u in
      if equal_strings expected observed
      then service_result name u pass (texts expected) (texts observed)
          (codes "service ambient capabilities match") w
      else service_result name u fail (texts expected) (texts observed)
          (codes "expected ambient capabilities "
            ++ (shown_strings expected ++ (codes ", observed " ++ shown_strings observed)))
          w

  -- `Run`
  unfoldable pub run_service_check : ServiceKind → Text → ServiceSpec → Context → W → Outcome × W
  unfolding service_error read_unit service_failure unit_command run_state run_restart run_user
      run_group run_capabilities
  run_service_check kind name spec ctx w =
      let (u, w1) = read_unit host ctx name w in
      elim ctx.failure [
        | some failure ↦
            let (t, w') = host.now w in
            (
              returned (
                  service_error timeout
                    (codes "collector context cancelled before service check started") [] none
                    (host.context_text failure) t),
              w',
            )
        | none ↦ elim u.failure [
          | some e ↦
              let (t, w2) = host.now w1 in
              (returned (service_failure (unit_command host.systemctl name) name u e t), w2)
          | none ↦ elim kind [
            | state ↦ run_state name spec u w1
            | restart ↦ run_restart name spec u w1
            | run_as_user ↦ run_user name spec u w1
            | run_as_group ↦ run_group name spec u w1
            | capabilities ↦ run_capabilities name spec u w1
          ]
        ]
      ]

  abbrev pub service_check : Text → ServiceSpec → ServiceKind → Check W
  service_check name spec kind = record {
    id = service_id name kind;
    domain = codes "services";
    prerequisites = service_prerequisites name kind;
    run = run_service_check kind name spec;
  }

  unfoldable pub service_checks_of : Text → ServiceSpec → List ServiceKind → List (Check W)
  unfolding service_id service_prerequisites run_service_check
  service_checks_of name spec [] = []
  service_checks_of name spec (k ∷ ks) = service_check name spec k ∷ service_checks_of name spec ks

  -- `buildServiceChecksWithResolver`, for the services by sorted key
  unfoldable pub build_service_checks : Bool → List (Text × ServiceSpec) → List (Check W)
  unfolding service_checks_of service_kinds
  build_service_checks state_only services =
      build (λ name spec. service_checks_of name spec (service_kinds state_only spec)) services
