-- ===== src/Collectors/Identity/Run/Passing.antt =====
-- When an identity check passes.
use savk.Base.{ℕ, ◌≡◌, ◌∙◌, Bool, false, ◌&&◌, List, Option, none, some, arith, is_none}
use savk.Base.Int.{ℤ, int_eq}
use savk.Text.{Text}
use savk.Evidence.{is_pass}
use savk.Contract.Schema.{IdentitySpec, CapabilitySetSpec}
use savk.Capabilities.{sort_canonical}
use savk.Engine.{Context}
use savk.Collectors.Process.{ProcessStatus, cgroups_contain}
use savk.Collectors.Services.Run.Passing.{passes}
use savk.Collectors.Systemctl.{CollectorError, equal_strings, find_cached}
use savk.Collectors.Identity.{
  Observation, IdentityHost, IdentityKind, uid, gid, effective, permitted, inheritable, bounding,
  ambient,
}
use savk.Collectors.Identity.MainPid.{read_main_pid}
use savk.Collectors.Identity.Observe.{
  observe, unobserved, observed_process, observation_failure, store_observation,
}
use savk.Collectors.Identity.Run.{
  or_empty, compare_id, compare_capabilities, identity_error, identity_failure, run_uid, run_gid,
  run_capability_set, run_identity_kind, run_identity_check,
}

abbrev is_number : Option ℤ → ℤ → Bool
is_number none actual = false
is_number (some expected) actual = int_eq actual expected

abbrev is_set :
    (CapabilitySetSpec → Option (List Text)) → List Text → Option CapabilitySetSpec → Bool
is_set set actual none = false
is_set set actual (some sets) = equal_strings (sort_canonical (or_empty (set sets))) actual

-- What the status of a process has to satisfy.
unfoldable pub is_status_satisfied : IdentityKind → IdentitySpec → ProcessStatus → Bool
unfolding equal_strings sort_canonical
is_status_satisfied uid spec status = is_number spec.uid status.uid
is_status_satisfied gid spec status = is_number spec.gid status.gid
is_status_satisfied effective spec status =
    is_set (λ s. s.effective) status.effective spec.capabilities
is_status_satisfied permitted spec status =
    is_set (λ s. s.permitted) status.permitted spec.capabilities
is_status_satisfied inheritable spec status =
    is_set (λ s. s.inheritable) status.inheritable spec.capabilities
is_status_satisfied bounding spec status =
    is_set (λ s. s.bounding) status.bounding spec.capabilities
is_status_satisfied ambient spec status = is_set (λ s. s.ambient) status.ambient spec.capabilities

identity_failure-is_pass :
    (service : Text) (o : Observation) (t : ℕ) (e : CollectorError)
    → is_pass (identity_failure service o e t).status ≡ false
unfolding identity_failure is_pass identity_error
identity_failure-is_pass service o t e = ground arith

run_identity_kind-is_pass :
    (k : IdentityKind) (spec : IdentitySpec) (o : Observation) (t : ℕ)
    → passes (run_identity_kind k spec o t) ≡ is_status_satisfied k spec o.status
unfolding run_identity_kind run_uid run_gid run_capability_set compare_id compare_capabilities
    is_status_satisfied passes is_pass
run_identity_kind-is_pass uid spec o t = ground arith
run_identity_kind-is_pass gid spec o t = ground arith
run_identity_kind-is_pass effective spec o t = ground arith
run_identity_kind-is_pass permitted spec o t = ground arith
run_identity_kind-is_pass inheritable spec o t = ground arith
run_identity_kind-is_pass bounding spec o t = ground arith
run_identity_kind-is_pass ambient spec o t = ground arith

module _ {W : Type 0} (host : IdentityHost W) where
  -- What the observer has to see of a service that it has not observed yet.
  unfoldable pub observation_satisfies : IdentityKind → IdentitySpec → Context → W → Bool
  unfolding read_main_pid is_status_satisfied
  observation_satisfies k spec ctx w =
      let (main, w1) = read_main_pid host ctx spec.service w in
      let (status, failure) = (host.process_reader ctx main.pid w1).0 in
      is_none main.failure
      && (is_none failure
          && (cgroups_contain status.cgroups main.control_group
              && is_status_satisfied k spec status))

  run_identity_check-is_pass-observe :
      (k : IdentityKind) (spec : IdentitySpec) (ctx : Context) (w : W)
      → passes (run_identity_check host k spec ctx w).0 ≡ (
          is_none ctx.failure
          && (is_none (observe host ctx spec.service w).0.failure
              && is_status_satisfied k spec (observe host ctx spec.service w).0.status))
  unfolding run_identity_check passes is_pass identity_error
  run_identity_check-is_pass-observe k spec ctx w =
      let (o, w1) = observe host ctx spec.service w in
      ground (
        arith,
        identity_failure-is_pass spec.service o (host.now w1).0,
        run_identity_kind-is_pass k spec o (host.now w1).0,
      )

  -- The check of a service that has not been observed yet passes just when its context has not ended,
  -- the main process of the service is found, its status is read, it stands in the control group of
  -- the service, and it has the uid, the gid or the set of capabilities that the spec asks for.
  pub run_identity_check-is_pass :
      (k : IdentityKind) (spec : IdentitySpec) (ctx : Context) (w : W)
      → find_cached spec.service (host.observations.get w) ≡ none
      → passes (run_identity_check host k spec ctx w).0
        ≡ (is_none ctx.failure && observation_satisfies k spec ctx w)
  unfolding observation_satisfies observe store_observation unobserved observed_process
      observation_failure
  run_identity_check-is_pass k spec ctx w new =
      run_identity_check-is_pass-observe k spec ctx w ∙ ground arith
