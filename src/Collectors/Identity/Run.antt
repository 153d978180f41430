-- ===== src/Collectors/Identity/Run.antt =====
-- internal/collectors/identity.go: `Run` of an identity check, and `BuildIdentityChecks`.
pub mod Passing
use savk.Base.{Bool, true, false, List, [], ◌∷◌, ◌++◌, Option, none, some, if◌then◌else◌}
use savk.Base.Int.{ℤ, pos, int_eq}
use savk.Text.{Text, codes}
use savk.Text.Number.{itoa}
use savk.Evidence.{
  Time, EvalStatus, pass, fail, error, insufficient_data, ReasonCode, reasonless, timeout,
  permission_denied, parse_error, namespace_isolation, Evidence, Value, absent, number, texts,
  CheckResult,
}
use savk.Contract.Schema.{IdentitySpec, CapabilitySetSpec}
use savk.Capabilities.{sort_canonical}
use savk.Engine.{Context, Outcome, returned, panicked, Check}
use savk.Collectors.Paths.Results.{path_result}
use savk.Collectors.Build.{build}
use savk.Collectors.Process.{ProcessStatus, no_status}
use savk.Collectors.Services.Failures.{nil_dereference}
use savk.Collectors.Systemctl.{
  CollectorError, err_namespace_isolation, err_permission_denied, err_main_pid_parse,
  err_process_parse, err_process_provenance, err_command_unavailable, err_unexpected_command,
  foreign, is_context_error, describe_environment_error, equal_strings, shown_strings,
}
use savk.Collectors.Identity.{
  Observation, observation_source, observation_exit_code, with_lookup_source, IdentityHost,
  IdentityKind, uid, gid, effective, permitted, inheritable, bounding, ambient, identity_id,
  identity_prerequisites, identity_kinds,
}
use savk.Collectors.Identity.Observe.{observe}

-- `runtimeIdentityObservation{err: err}`: its error is not shown.
abbrev no_observation : Observation
no_observation = record {
  pid = pos 0;
  control_group = [];
  status = no_status;
  command = [];
  exit_code = pos 0;
  raw = [];
  failure = none;
}

-- The evidence of `result` and of `errorResult`.
unfoldable pub identity_evidence : Observation → Time → Evidence
unfolding observation_source observation_exit_code
identity_evidence o t = record {
  source = observation_source o;
  collector = codes "identity";
  collected_at = t;
  command = o.command;
  exit_code = observation_exit_code o;
  raw = o.raw;
  redacted = false;
  truncated = false;
}

-- `errorResult` of an `identityCheck`
unfoldable pub identity_error : EvalStatus → ReasonCode → Text → Observation → Time → CheckResult
unfolding identity_evidence
identity_error status reason message o t =
    path_result status reason absent absent (identity_evidence o t) message

-- The `switch` of `Run` for the error of an observation.
unfoldable pub identity_failure : Text → Observation → CollectorError → Time → CheckResult
unfolding identity_error is_context_error describe_environment_error with_lookup_source
identity_failure service o e t =
    let failed : EvalStatus → ReasonCode → Text → CheckResult =
      λ status reason message. identity_error status reason message o t in
    let denied = failed error permission_denied (
      codes "permission denied while reading observer-local runtime process identity for service "
      ++ service) in
    let unsupported =
      identity_error error reasonless
        (codes "unsupported observer-local environment for service "
          ++ (service
              ++ (codes " while reading runtime process identity: "
                  ++ describe_environment_error e)))
        (with_lookup_source o) t in
    let uninspected =
      failed error parse_error (
        codes "failed to inspect observer-local runtime process identity for service "
        ++ service) in
    if is_context_error e
    then failed error timeout (
        codes
          "collector timed out while reading observer-local runtime process identity for service "
        ++ service)
    else elim e [
      | err_namespace_isolation ↦ failed error namespace_isolation (
          codes
            "service-backed checks are observer-local in v0.1.x; observer-local systemd is not reachable for service "
          ++ service)
      | err_permission_denied ↦ denied
      | err_command_unavailable cause ↦ unsupported
      | err_unexpected_command path ↦ unsupported
      | err_main_pid_parse ↦ failed insufficient_data parse_error (
          codes "service "
          ++ (service
              ++ codes
                  " did not expose a usable MainPID for observer-local runtime process identity"))
      | err_process_parse ↦
          failed insufficient_data parse_error
            (codes "unable to parse observer-local /proc status for service " ++ service)
      | err_process_provenance ↦ failed insufficient_data reasonless (
          codes
            "unable to keep the observed process tied to the current observer-local service observation for service "
          ++ service)
      | foreign cause ↦
          if cause.is_permission
          then denied
          else if cause.is_not_exist
          then failed insufficient_data reasonless (
              codes "observed process for service "
              ++ (service
                  ++ codes
                      " disappeared before observer-local runtime process identity could be read"))
          else uninspected
      | _ ↦ uninspected
    ]

-- `result`, and the comparisons of a number and of a list of capabilities.
unfoldable pub compare_id : Text → ℤ → ℤ → Observation → Time → CheckResult
unfolding identity_evidence
compare_id what expected actual o t =
    if int_eq actual expected
    then path_result pass reasonless (number expected) (number actual) (identity_evidence o t)
        (codes "observer-local runtime " ++ (what ++ (codes " matches " ++ itoa expected)))
    else path_result fail reasonless (number expected) (number actual) (identity_evidence o t) (
        codes "expected observer-local runtime "
        ++ (what ++ (codes " " ++ (itoa expected ++ (codes ", observed " ++ itoa actual)))))

-- `runCapabilities`, with the two lists in order.
unfoldable pub compare_capabilities :
    Text → List Text → List Text → Observation → Time → CheckResult
unfolding identity_evidence equal_strings shown_strings
compare_capabilities set_name expected actual o t =
    if equal_strings expected actual
    then path_result pass reasonless (texts expected) (texts actual) (identity_evidence o t)
        (codes "observer-local runtime " ++ (set_name ++ codes " capabilities match"))
    else path_result fail reasonless (texts expected) (texts actual) (identity_evidence o t) (
        codes "expected observer-local runtime "
        ++ (set_name
            ++ (codes " capabilities "
                ++ (shown_strings expected ++ (codes ", observed " ++ shown_strings actual)))))

-- `runUID`
unfoldable pub run_uid : IdentitySpec → Observation → Time → Outcome
unfolding compare_id
run_uid spec o t = elim spec.uid [
  | none ↦ panicked nil_dereference
  | some expected ↦ returned (compare_id (codes "uid") expected o.status.uid o t)
]

-- `runGID`
unfoldable pub run_gid : IdentitySpec → Observation → Time → Outcome
unfolding compare_id
run_gid spec o t = elim spec.gid [
  | none ↦ panicked nil_dereference
  | some expected ↦ returned (compare_id (codes "gid") expected o.status.gid o t)
]

-- A list that is not set is nil.
abbrev pub or_empty : Option (List Text) → List Text
or_empty none = []
or_empty (some values) = values

-- `runCapabilities`, for a set of the spec and what the process has of it.
unfoldable pub run_capability_set :
    Text
    → (CapabilitySetSpec → Option (List Text))
    → List Text
    → IdentitySpec
    → Observation
    → Time
    → Outcome
unfolding compare_capabilities sort_canonical
run_capability_set set_name set actual spec o t = elim spec.capabilities [
  | none ↦ panicked nil_dereference
  | some sets ↦
      returned (compare_capabilities set_name (sort_canonical (or_empty (set sets))) actual o t)
]

-- The second `switch` of `Run`
unfoldable pub run_identity_kind : IdentityKind → IdentitySpec → Observation → Time → Outcome
unfolding run_uid run_gid run_capability_set
run_identity_kind uid spec o t = run_uid spec o t
run_identity_kind gid spec o t = run_gid spec o t
run_identity_kind effective spec o t =
    run_capability_set (codes "effective") (λ s. s.effective) o.status.effective spec o t
run_identity_kind permitted spec o t =
    run_capability_set (codes "permitted") (λ s. s.permitted) o.status.permitted spec o t
run_identity_kind inheritable spec o t =
    run_capability_set (codes "inheritable") (λ s. s.inheritable) o.status.inheritable spec o t
run_identity_kind bounding spec o t =
    run_capability_set (codes "bounding") (λ s. s.bounding) o.status.bounding spec o t
run_identity_kind ambient spec o t =
    run_capability_set (codes "ambient") (λ s. s.ambient) o.status.ambient spec o t

module _ {W : Type 0} (host : IdentityHost W) where
  -- `Run`. The clock is read for the result; a call that panics has not come so far.
  unfoldable pub run_identity_check : IdentityKind → IdentitySpec → Context → W → Outcome × W
  unfolding observe identity_failure identity_error run_identity_kind
  run_identity_check kind spec ctx w =
      let (o, w1) = observe host ctx spec.service w in
      elim ctx.failure [
        | some failure ↦
            let (t, w') = host.now w in
            (
              returned (
                  identity_error error timeout
                    (codes "collector context cancelled before identity check started")
                    no_observation t),
              w',
            )
        | none ↦
            let (t, w2) = host.now w1 in
            elim o.failure [
              | some e ↦ (returned (identity_failure spec.service o e t), w2)
              | none ↦ elim (run_identity_kind kind spec o t) [
                | returned r ↦ (returned r, w2)
                | panicked s ↦ (panicked s, w1)
              ]
            ]
      ]

  abbrev pub identity_check : Text → IdentitySpec → IdentityKind → Check W
  identity_check label spec kind = record {
    id = identity_id label kind;
    domain = codes "identity";
    prerequisites = identity_prerequisites spec;
    run = run_identity_check kind spec;
  }

  unfoldable pub identity_checks_of : Text → IdentitySpec → List IdentityKind → List (Check W)
  unfolding identity_id identity_prerequisites run_identity_check
  identity_checks_of label spec [] = []
  identity_checks_of label spec (k ∷ ks) =
      identity_check label spec k ∷ identity_checks_of label spec ks

  -- `BuildIdentityChecks`, for the labels in order, which has no error
  unfoldable pub build_identity_checks : List (Text × IdentitySpec) → List (Check W)
  unfolding identity_checks_of identity_kinds
  build_identity_checks identities =
      build (λ label spec. identity_checks_of label spec (identity_kinds spec)) identities
