-- ===== src/Engine/Run.antt =====
-- internal/engine/engine.go, evaluator.go: running the checks in order.
pub mod Results
pub mod Passing
use savk.Base.{
  ℕ, ◌+◌, ◌-◌, ◌==◌, ◌/◌, ◌^◌, Bool, true, false, List, [], ◌∷◌, ◌++◌, Option, none, some, Result,
  ok, err, ◌>>=◌, leb, if◌then◌else◌,
}
use Prim.Native.Nat.{min}
use savk.Base.Int.{ℤ, pos, negsuc, neg, is_positive}
use savk.Text.{Text, text_eq, codes}
use savk.Evidence.{
  Time, EvalStatus, pass, fail, not_applicable, insufficient_data, error, other, status_text,
  is_pass, reasonless, timeout, internal_error, prerequisite_failed, Evidence, absent, CheckResult,
}
use savk.Engine.{
  ContextError, deadline_exceeded, canceled, Context, Outcome, returned, panicked, Check, Stop,
  validate_checks,
}

-- How the `select` of `runCheck` ends.
pub data Race : Type 0 where
  context_done : ContextError → Race
  run_done : Outcome → Race

-- What the engine takes from outside: the clock, the goroutine that runs a check against the
-- context's deadline, and the text of a duration. They may change the world in any way.
pub record Host (W : Type 0) : Type 0 where
  pub now : W → Time × W
  pub select : (W → Outcome × W) → W → Race × W
  pub duration_text : ℤ → Text

pub record Engine : Type 0 where
  pub collector_timeout : ℤ

-- `t.Sub(s)`: a `Duration` of 64 bits, which does not wrap.
unfoldable pub sub_time : Time → Time → ℤ
sub_time t s = if leb s t then pos (min (t - s) (2 ^ 63 - 1)) else neg (min (s - t) (2 ^ 63))

-- `d.Milliseconds()`: division towards zero.
unfoldable pub milliseconds : ℤ → ℤ
milliseconds (pos n) = pos (n / 1000000)
milliseconds (negsuc n) = neg ((1 + n) / 1000000)

unfoldable pub propagate_prerequisite_status : EvalStatus → EvalStatus
propagate_prerequisite_status fail = not_applicable
propagate_prerequisite_status not_applicable = not_applicable
propagate_prerequisite_status error = insufficient_data
propagate_prerequisite_status insufficient_data = insufficient_data
propagate_prerequisite_status pass = insufficient_data
propagate_prerequisite_status (other s) = insufficient_data

-- `results[prereq]`
abbrev pub Results : Type 0
Results = Text → Option CheckResult

-- `byID[id] = result`
abbrev pub store_result : Results → Text → CheckResult → Results
store_result by id r k = if text_eq k id then some r else by k

-- `findBlockingPrerequisite`, over the prerequisites of the check
unfoldable pub find_blocking : List Text → Results → Option (Text × CheckResult)
unfolding is_pass
find_blocking [] by = none
find_blocking (p ∷ ps) by =
    let rest = find_blocking ps by in
    elim (by p) [ none ↦ rest | some r ↦ if is_pass r.status then rest else some (p, r) ]

abbrev pub engine_evidence : Text → Time → Evidence
engine_evidence source t = record {
  source = source;
  collector = codes "engine";
  collected_at = t;
  command = [];
  exit_code = none;
  raw = [];
  redacted = false;
  truncated = false;
}

module _ {W : Type 0} (host : Host W) where
  prerequisite_failure : Check W → Text → EvalStatus → W → CheckResult × W
  unfolding propagate_prerequisite_status status_text
  prerequisite_failure c blocked_by blocked_status w =
      let (t, w') = host.now w in
      (
        record {
          check_id = c.id;
          domain = c.domain;
          status = propagate_prerequisite_status blocked_status;
          reason_code = prerequisite_failed;
          expected = absent;
          observed = absent;
          evidence = engine_evidence (codes "engine.prerequisite") t;
          duration_ms = pos 0;
          message =
              codes "blocked by prerequisite "
              ++ (blocked_by ++ (codes " with status " ++ status_text blocked_status));
        },
        w',
      )

  -- The result of a panic, on both paths.
  panic_result : Check W → Text → W → CheckResult × W
  panic_result c recovered w =
      let (t, w') = host.now w in
      (
        record {
          check_id = c.id;
          domain = c.domain;
          status = error;
          reason_code = internal_error;
          expected = absent;
          observed = absent;
          evidence = engine_evidence (codes "engine.panic") t;
          duration_ms = pos 0;
          message = codes "panic recovered while running check: " ++ recovered;
        },
        w',
      )

  context_failure : Engine → Check W → ContextError → W → CheckResult × W
  context_failure e c failure w =
      let (t, w') = host.now w in
      let result : CheckResult = record {
        check_id = c.id;
        domain = c.domain;
        status = error;
        reason_code = reasonless;
        expected = absent;
        observed = absent;
        evidence = engine_evidence [] t;
        duration_ms = pos 0;
        message = [];
      } in
      elim failure [
        | deadline_exceeded ↦ (
          record result {
            reason_code = timeout;
            evidence = engine_evidence (codes "engine.timeout") t;
            message = codes "collector timed out after " ++ host.duration_text e.collector_timeout;
          },
          w',
        )
        | canceled ↦ (
          record result {
            evidence = engine_evidence (codes "engine.context") t;
            message = codes "collector context cancelled";
          },
          w',
        )
      ]

  -- `finalizeResult`; the zero time is 0.
  finalize_result : Check W → CheckResult → Time → W → CheckResult × W
  unfolding sub_time milliseconds
  finalize_result c result started_at w =
      let (t, w') = host.now w in
      let r : CheckResult = record result {
        check_id = c.id;
        domain = c.domain;
        duration_ms = milliseconds (sub_time t started_at);
      } in
      if r.evidence.collected_at == 0
      then (let (t', w'') = host.now w' in
          (record r { evidence = record (r.evidence) { collected_at = t' } }, w''))
      else (r, w')

  run_check_sync : Context → Check W → Time → W → CheckResult × W
  unfolding panic_result finalize_result
  run_check_sync ctx c started_at w =
      let (outcome, w') = c.run ctx w in
      elim outcome [
        | returned result ↦ finalize_result c result started_at w'
        | panicked recovered ↦ panic_result c recovered w'
      ]

  -- `collectorContext`: a timeout adds a deadline to what the parent says.
  abbrev collector_context : Engine → Context → Context
  collector_context e parent =
      if is_positive e.collector_timeout then record parent { has_deadline = true } else parent

  -- The result of the `select`, before `finalizeResult`.
  race_result : Engine → Check W → Race → W → CheckResult × W
  unfolding context_failure panic_result
  race_result e c (context_done failure) w = context_failure e c failure w
  race_result e c (run_done (panicked recovered)) w = panic_result c recovered w
  race_result e c (run_done (returned result)) w = (result, w)

  run_check_async : Engine → Context → Check W → Time → W → CheckResult × W
  unfolding race_result finalize_result
  run_check_async e ctx c started_at w =
      let (race, w') = host.select (c.run ctx) w in
      let (result, w'') = race_result e c race w' in finalize_result c result started_at w''

  unfoldable pub run_check : Engine → Context → Check W → W → CheckResult × W
  unfolding context_failure finalize_result run_check_sync run_check_async
  run_check e parent c w =
      let (started_at, w') = host.now w in
      let ctx = collector_context e parent in
      elim ctx.failure [
        | some failure ↦
            let (result, w'') = context_failure e c failure w' in
            finalize_result c result started_at w''
        | none ↦
            if ctx.has_deadline
            then run_check_async e ctx c started_at w'
            else run_check_sync ctx c started_at w'
      ]

  -- One round of the loop of `Run`.
  unfoldable pub run_step : Engine → Context → Check W → Results → W → CheckResult × W
  unfolding find_blocking prerequisite_failure run_check
  run_step e ctx c by w = elim (find_blocking c.prerequisites by) [
    | some (blocked_by, blocked) ↦ prerequisite_failure c blocked_by blocked.status w
    | none ↦ run_check e ctx c w
  ]

  unfoldable pub run_loop : Engine → Context → List (Check W) → Results → W → List CheckResult × W
  unfolding run_step
  run_loop e ctx [] by w = ([], w)
  run_loop e ctx (c ∷ cs) by w =
      let (r, w') = run_step e ctx c by w in
      let (rs, w'') = run_loop e ctx cs (store_result by c.id r) w' in (r ∷ rs, w'')

  -- `Engine.Run`
  unfoldable pub run : Engine → Context → List (Check W) → W → Result Stop (List CheckResult × W)
  unfolding validate_checks run_loop
  run e ctx checks w = do
    ordered ← validate_checks checks
    ok (run_loop e ctx ordered (λ _. none) w)
