-- ===== src/Collectors/Preflight.antt =====
-- internal/collectors/service_preflight.go: the check of the observer's namespace, on which the
-- other checks of a domain wait.
use savk.Base.{
  ◌≡◌, refl, Bool, false, not, ◌&&◌, [], ◌∷◌, ◌++◌, none, some, Result, ok, err, if◌then◌else◌,
  arith, is_none,
}
use savk.Base.Int.{pos}
use savk.Text.{Text, text_eq, codes}
use savk.Text.Space.{trim_space}
use savk.Evidence.{
  Time, EvalStatus, pass, error, not_applicable, is_pass, ReasonCode, reasonless, timeout,
  permission_denied, parse_error, namespace_isolation, Value, absent, text, CheckResult,
}
use savk.Engine.{ContextError, Context, returned, Check}

-- An error of `PID1Comm`, by `errors.Is(err, fs.ErrPermission)` and its text.
pub record ProbeError : Type 0 where
  pub is_permission : Bool
  pub message : Text

-- `ServiceNamespaceProbe`, the clock, and the text of a context's error.
pub record ProbeHost (W : Type 0) : Type 0 where
  pub pid1_comm : Context → W → Result ProbeError Text × W
  pub now : W → Time × W
  pub context_text : ContextError → Text

-- `PID1Comm` of `OSServiceNamespaceProbe`, over `os.ReadFile`
unfoldable pub os_pid1_comm :
    {W : Type 0}
    → (Text → W → Result ProbeError Text × W)
    → Context
    → W
    → Result ProbeError Text × W
os_pid1_comm read_file ctx w =
    let (comm, w') = read_file (codes "/proc/1/comm") w in
    (elim comm [ err e ↦ err e | ok observed ↦ ok (trim_space observed) ], w')

-- A result of the check, of which the evidence has this source and raw text.
abbrev pub preflight_result :
    Text → EvalStatus → ReasonCode → Value → Value → Text → Text → Text → Time → CheckResult
preflight_result domain status reason expected observed source raw message t = record {
  check_id = [];
  domain = [];
  status = status;
  reason_code = reason;
  expected = expected;
  observed = observed;
  evidence = record {
    source = source;
    collector = domain;
    collected_at = t;
    command = [];
    exit_code = none;
    raw = raw;
    redacted = false;
    truncated = false;
  };
  duration_ms = pos 0;
  message = message;
}

-- `serviceNamespaceError`
unfoldable pub service_namespace_error : Text → ReasonCode → Text → Text → Time → CheckResult
service_namespace_error domain reason message raw =
    preflight_result domain error reason absent absent (codes "/proc/1/comm") raw message

-- The result for what `PID1Comm` returns.
unfoldable pub preflight_of : Text → Text → Result ProbeError Text → Time → CheckResult
preflight_of domain target (err e) t =
    service_namespace_error domain (if e.is_permission then permission_denied else parse_error)
      (codes "failed to inspect observer-local /proc/1/comm") e.message t
preflight_of domain target (ok observed) t =
    if text_eq observed []
    then service_namespace_error domain parse_error
        (codes "empty observer-local /proc/1/comm while checking namespace") [] t
    else if not (text_eq observed (codes "systemd"))
    then preflight_result domain error namespace_isolation (text (codes "systemd")) (text observed)
        (codes "/proc/1/comm") observed
        (codes
            "observer-local namespace preflight failed: expected observer-local PID 1 to be systemd for target "
          ++ (target ++ (codes ", observed " ++ observed)))
        t
    else preflight_result domain pass reasonless (text (codes "systemd")) (text observed)
        (codes "/proc/1/comm") observed
        (domain ++ codes " observer-local namespace preflight confirms PID 1 is systemd") t

module _ {W : Type 0} (host : ProbeHost W) where
  -- `Run`
  unfoldable pub run_preflight : Text → Text → Context → W → CheckResult × W
  run_preflight domain target ctx w =
      let (t, w1) = host.now w in
      let (observed, w2) = host.pid1_comm ctx w in
      let (t', w3) = host.now w2 in
      elim ctx.failure [
        | some failure ↦ (
          service_namespace_error domain timeout
              (codes
                "collector context cancelled before observer-local namespace preflight started")
              (host.context_text failure) t,
          w1,
        )
        | none ↦
            if not (text_eq target (codes "linux-systemd"))
            then (
              preflight_result domain not_applicable reasonless (text (codes "linux-systemd"))
                  (text target) (codes "contract.metadata.target") target
                  (domain
                    ++ (codes " observer-local namespace preflight does not apply to target "
                        ++ target))
                  t,
              w1,
            )
            else (preflight_of domain target observed t', w3)
      ]

  -- `newNamespaceCheck`
  abbrev pub namespace_check : Text → Text → Text → Check W
  namespace_check domain id target = record {
    id = id;
    domain = domain;
    prerequisites = [];
    run = λ ctx w. let (r, w') = run_preflight domain target ctx w in (returned r, w');
  }

-- PID 1 is read, and is systemd.
abbrev pub is_systemd : Result ProbeError Text → Bool
is_systemd (err e) = false
is_systemd (ok observed) = text_eq observed (codes "systemd")

preflight_of-is_pass :
    (domain target : Text) (r : Result ProbeError Text) (t : Time)
    → is_pass (preflight_of domain target r t).status ≡ is_systemd r
unfolding preflight_of service_namespace_error is_pass codes text_eq
preflight_of-is_pass domain target (err e) t = refl
preflight_of-is_pass domain target (ok []) t = refl
preflight_of-is_pass domain target (ok (c ∷ s)) t = ground arith

-- The check of the namespace passes just when its context has not ended, the contract's target is
-- linux-systemd, and the observer's PID 1 is systemd.
pub run_preflight-is_pass :
    {W : Type 0} (host : ProbeHost W) (domain target : Text) (ctx : Context) (w : W)
    → is_pass (run_preflight host domain target ctx w).0.status ≡ (
        is_none ctx.failure
        && (text_eq target (codes "linux-systemd") && is_systemd (host.pid1_comm ctx w).0))
unfolding run_preflight is_pass service_namespace_error
run_preflight-is_pass host domain target ctx w =
    let probed = host.pid1_comm ctx w in
    ground (arith, preflight_of-is_pass domain target probed.0 (host.now probed.1).0)
