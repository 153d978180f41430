-- ===== src/Collectors/Identity/Observe.antt =====
-- internal/collectors/identity.go: the observer of the identity of a service's main process.
use savk.Base.{
  ◌≡◌, refl, ◌∙◌, arith, Result-cases, List, [], ◌∷◌, ◌++◌, Option, none, some, if◌then◌else◌,
  Option-cases, inl, inr,
}
use savk.Base.Int.{ℤ, pos}
use savk.Text.{Text, text_eq, text_eq_refl, codes}
use savk.Text.Space.{trim_space}
use savk.Engine.{Context}
use savk.Collectors.Accounts.Once.{IsCell}
use savk.Collectors.Process.{ProcessStatus, no_status, cgroups_contain}
use savk.Collectors.Systemctl.{
  CollectorError, err_process_provenance, find_cached, find_cached-cons, error_text,
}
use savk.Collectors.Identity.{MainPidResult, Observation, IdentityHost}
use savk.Collectors.Identity.MainPid.{
  read_main_pid, store_main_pid, main_pid_command, main_pid_of_command, main_pid_failure,
}

-- The observation of a process that could not be found.
unfoldable pub unobserved : MainPidResult → CollectorError → Observation
unobserved main e = record {
  pid = pos 0;
  control_group = main.control_group;
  status = no_status;
  command = main.command;
  exit_code = main.exit_code;
  raw = main.raw;
  failure = some e;
}

-- `raw` with what the kernel shows behind it.
unfoldable pub with_status_raw : Text → Text → Text
with_status_raw raw more =
    let trimmed = trim_space more in
    if text_eq trimmed []
    then raw
    else (if text_eq raw [] then raw else raw ++ codes "\n---\n") ++ trimmed

-- What `Read` says of a process, from what `ReadStatus` returns.
unfoldable pub observation_failure :
    MainPidResult → ProcessStatus × Option CollectorError → Option CollectorError
unfolding cgroups_contain
observation_failure main (status, some e) = some e
observation_failure main (status, none) =
    if cgroups_contain status.cgroups main.control_group then none else some err_process_provenance

unfoldable pub observed_process :
    MainPidResult → ProcessStatus × Option CollectorError → Observation
unfolding with_status_raw observation_failure
observed_process main (status, failed) = record {
  pid = main.pid;
  control_group = main.control_group;
  status = status;
  command = main.command;
  exit_code = main.exit_code;
  raw = with_status_raw main.raw status.raw;
  failure = observation_failure main (status, failed);
}

-- The map of observations holds what has been set, and is kept by what an observation calls: the run
-- of a command, the reading of a process, and the map of main processes.
pub record KeepsObservations {W : Type 0} (host : IdentityHost W) : Type 0 where
  pub cell : IsCell host.observations
  pub runner :
      (ctx : Context) (command : List Text) (w : W)
      → host.observations.get (host.runner ctx command w).1 ≡ host.observations.get w
  pub process_reader :
      (ctx : Context) (pid : ℤ) (w : W)
      → host.observations.get (host.process_reader ctx pid w).1 ≡ host.observations.get w
  pub main_pids :
      (pids : List (Text × MainPidResult)) (w : W)
      → host.observations.get (host.main_pids.set pids w) ≡ host.observations.get w

module _ {W : Type 0} (host : IdentityHost W) where
  -- `store` of a `runtimeIdentityObserver`
  unfoldable pub store_observation : Text → Observation → W → Observation × W
  store_observation service o w =
      (o, host.observations.set ((service, o) ∷ host.observations.get w) w)

  -- `Read` of a `runtimeIdentityObserver`; the error that it returns is the one in the observation.
  unfoldable pub observe : Context → Text → W → Observation × W
  unfolding find_cached store_observation unobserved observed_process read_main_pid
  observe ctx service w = elim (find_cached service (host.observations.get w)) [
    | some cached ↦ (cached, w)
    | none ↦
        let (main, w1) = read_main_pid host ctx service w in
        let (outcome, w2) = host.process_reader ctx main.pid w1 in
        elim main.failure [
          | some e ↦ store_observation service (unobserved main e) w1
          | none ↦ store_observation service (observed_process main outcome) w2
        ]
  ]

  find_cached-store_observation :
      (service : Text) (o : Observation) (w : W)
      → IsCell host.observations
      → find_cached service (host.observations.get (store_observation service o w).1) ≡ some o
  unfolding store_observation find_cached
  find_cached-store_observation service o w kept =
      rw (kept ((service, o) ∷ host.observations.get w) w) (ground (arith, text_eq_refl service))

  find_cached-observe :
      (ctx : Context) (service : Text) (w : W)
      → IsCell host.observations
      → find_cached service (host.observations.get (observe ctx service w).1)
        ≡ some (observe ctx service w).0
  unfolding observe
  find_cached-observe ctx service w kept =
      let (main, w1) = read_main_pid host ctx service w in
      let (outcome, w2) = host.process_reader ctx main.pid w1 in
      elim (Option-cases (find_cached service (host.observations.get w))) [
        | inr (o, found) ↦ ground arith
        | inl new ↦ elim (Option-cases main.failure) [
          | inr (e, failed) ↦
              ground (arith, find_cached-store_observation service (unobserved main e) w1 kept)
          | inl read ↦
              ground (
                arith,
                find_cached-store_observation service (observed_process main outcome) w2 kept,
              )
        ]
      ]

  store_main_pid-keeps :
      (service : Text) (r : MainPidResult) (w : W)
      → KeepsObservations host
      → host.observations.get (store_main_pid host service r w).1 ≡ host.observations.get w
  unfolding store_main_pid
  store_main_pid-keeps service r w keeps = keeps.main_pids ((service, r) ∷ host.main_pids.get w) w

  read_main_pid-keeps :
      (ctx : Context) (service : Text) (w : W)
      → KeepsObservations host
      → host.observations.get (read_main_pid host ctx service w).1 ≡ host.observations.get w
  unfolding read_main_pid
  read_main_pid-keeps ctx service w keeps =
      let command = main_pid_command host.systemctl service in
      let ran = host.runner ctx command w in
      elim (Option-cases (find_cached service (host.main_pids.get w))) [
        | inr (r, found) ↦ ground arith
        | inl new ↦ elim (Result-cases host.systemctl) [
          | inl (e, missing) ↦ ground (
            arith,
            store_main_pid-keeps service (main_pid_failure command (pos 0) (error_text e) e) w
                keeps,
          )
          | inr (path, found) ↦ ground (
            arith,
            store_main_pid-keeps service (main_pid_of_command host.lower command (ran.0)) (ran.1)
                keeps,
            keeps.runner ctx command w,
          )
        ]
      ]

  store_observation-keeps :
      (name service : Text) (o p : Observation) (w : W)
      → IsCell host.observations
      → find_cached service (host.observations.get w) ≡ none
      → find_cached name (host.observations.get w) ≡ some o
      → find_cached name (host.observations.get (store_observation service p w).1) ≡ some o
  unfolding store_observation
  store_observation-keeps name service o p w kept new here =
      rw (kept ((service, p) ∷ host.observations.get w) w)
        (find_cached-cons name service o p (host.observations.get w) new here)

  observe-keeps :
      (ctx : Context) (name service : Text) (o : Observation) (w : W)
      → KeepsObservations host
      → find_cached name (host.observations.get w) ≡ some o
      → find_cached name (host.observations.get (observe ctx service w).1) ≡ some o
  unfolding observe
  observe-keeps ctx name service o w keeps here =
      let (main, w1) = read_main_pid host ctx service w in
      let (outcome, w2) = host.process_reader ctx main.pid w1 in
      let read = read_main_pid-keeps ctx service w keeps in
      let shown = keeps.process_reader ctx main.pid w1 ∙ read in
      elim (Option-cases (find_cached service (host.observations.get w))) [
        | inr (p, found) ↦ ground arith
        | inl new ↦ elim (Option-cases main.failure) [
          | inr (e, failed) ↦ ground (
            arith,
            store_observation-keeps name service o (unobserved main e) w1 keeps.cell (rw read new)
                (rw read here),
          )
          | inl found ↦ ground (
            arith,
            store_observation-keeps name service o (observed_process main outcome) w2 keeps.cell
                (rw shown new) (rw shown here),
          )
        ]
      ]

  -- The world behind observations of any services, one after the other.
  unfoldable pub observe_each : List (Context × Text) → W → W
  observe_each [] w = w
  observe_each ((ctx, service) ∷ rest) w = observe_each rest (observe ctx service w).1

  observe_each-keeps :
      (rest : List (Context × Text)) (name : Text) (o : Observation) (w : W)
      → KeepsObservations host
      → find_cached name (host.observations.get w) ≡ some o
      → find_cached name (host.observations.get (observe_each rest w)) ≡ some o
  unfolding observe_each
  observe_each-keeps [] name o w keeps here = here
  observe_each-keeps ((ctx, service) ∷ rest) name o w keeps here =
      observe_each-keeps rest name o (observe ctx service w).1 keeps
        (observe-keeps ctx name service o w keeps here)

  -- All checks of a service see one process: once it has been observed, and whatever services are
  -- observed behind it, observing it again gives the same observation, whatever the context, and
  -- leaves the world as it is, so that no command is run and no file read.
  -- It is asked that the runs, the reading of processes and the map of main processes keep the map of
  -- observations.
  pub observe-once :
      (ctx ctx' : Context) (service : Text) (rest : List (Context × Text)) (w : W)
      → KeepsObservations host
      → observe ctx' service (observe_each rest (observe ctx service w).1)
        ≡ ((observe ctx service w).0, observe_each rest (observe ctx service w).1)
  unfolding observe observe_each
  observe-once ctx ctx' service rest w keeps =
      let (o, w1) = observe ctx service w in
      let cached =
        observe_each-keeps rest service o w1 keeps (find_cached-observe ctx service w keeps.cell) in
      rw (cached, observe) refl
