-- ===== src/Collectors/Paths/Run.antt =====
-- internal/collectors/paths.go: `Run` of a path check, and `BuildPathChecks`.
pub mod Passing
pub mod Modes
use savk.Base.{
  ℕ, Bool, true, false, List, [], ◌∷◌, ◌++◌, Result, ok, err, if◌then◌else◌, Option, none, some,
}
use savk.Base.Int.{pos}
use savk.Text.{Text, text_eq, codes}
use savk.Text.Number.{itoa}
use savk.Evidence.{
  Time, EvalStatus, pass, fail, error, insufficient_data, ReasonCode, reasonless, timeout,
  not_found, parse_error, Evidence, Value, absent, truth, text, CheckResult,
}
use savk.Contract.Schema.{PathSpec}
use savk.Engine.{ContextError, Context, Outcome, returned, Check}
use savk.Collectors.Build.{build}
use savk.Collectors.Paths.{
  FileMode, Ownership, FileInfo, StatError, PathHost, PathKind, exists, type, mode, owner, group,
  kind_text, path_id, observed_path_type, format_file_mode, map_stat_error, path_kinds,
  path_prerequisites,
}
use savk.Collectors.Paths.Results.{
  file_evidence, path_result, raw_pairs, path_evidence, compare_result,
}

module _ {W : Type 0} (host : PathHost W) where
  -- `errorResult`, with a message that is not empty
  unfoldable pub error_result : Text → Text → ReasonCode → Text → Text → W → CheckResult × W
  error_result collector path reason message cause w =
      let (t, w') = host.now w in
      (
        path_result error reason absent absent
            (file_evidence collector (codes "fs.lstat")
              (raw_pairs ((codes "path", path) ∷ (codes "error", cause) ∷ [])) t)
            message,
        w',
      )

  unfoldable pub lstat_failure : Text → Text → StatError → W → CheckResult × W
  unfolding error_result
  lstat_failure collector path e w =
      error_result collector (host.resolved_path path) (map_stat_error e)
        (codes "failed to lstat " ++ path) e.message w

  run_exists : Text → W → CheckResult × W
  run_exists path w =
      let (found, w') = host.lstat path w in
      let (t, w'') = host.now w' in
      elim found [
        | ok info ↦ (
          path_result pass reasonless (truth true) (truth true)
              (path_evidence (codes "fs.lstat")
                (raw_pairs (
                  (codes "path", host.resolved_path path) ∷ (codes "mode", info.mode.printed) ∷ []))
                t)
              (codes "path exists"),
          w'',
        )
        | err e ↦
            if e.is_not_exist
            then (
              path_result fail not_found (truth true) (truth false)
                  (path_evidence (codes "fs.lstat")
                    (raw_pairs
                      ((codes "path", host.resolved_path path) ∷ (codes "error", e.message) ∷ []))
                    t)
                  (codes "expected path " ++ (path ++ codes " to exist")),
              w'',
            )
            else lstat_failure (codes "paths") path e w'
      ]

  run_type : Text → PathSpec → W → CheckResult × W
  run_type path spec w =
      let (found, w') = host.lstat path w in
      let (t, w'') = host.now w' in
      elim found [
        | err e ↦ lstat_failure (codes "paths") path e w'
        | ok info ↦ (
          compare_result (codes "path") (codes "type") spec.kind (observed_path_type info.mode) (
              path_evidence (codes "fs.lstat")
                (raw_pairs (
                  (codes "path", host.resolved_path path) ∷ (codes "mode", info.mode.printed) ∷ []))
                t),
          w'',
        )
      ]

  run_mode : Text → PathSpec → W → CheckResult × W
  run_mode path spec w =
      let (found, w') = host.lstat path w in
      let (t, w'') = host.now w' in
      elim found [
        | err e ↦ lstat_failure (codes "paths") path e w'
        | ok info ↦ (
          compare_result (codes "path") (codes "mode") spec.mode (format_file_mode info.mode) (
              path_evidence (codes "fs.lstat")
                (raw_pairs (
                  (codes "path", host.resolved_path path)
                  ∷ (codes "mode", format_file_mode info.mode)
                  ∷ []))
                t),
          w'',
        )
      ]

  -- `info.Sys()` is no `syscall.Stat_t`.
  unfoldable pub no_ownership : Text → Text → Text → W → CheckResult × W
  no_ownership collector what path w =
      let (t, w') = host.now w in
      (
        path_result error parse_error absent absent
            (file_evidence collector (codes "fs.lstat") [] t)
            (codes "unable to read " ++ (what ++ (codes " metadata for " ++ path))),
        w',
      )

  run_owner : Text → PathSpec → W → CheckResult × W
  run_owner path spec w =
      let (found, w') = host.lstat path w in
      elim found [
        | err e ↦ lstat_failure (codes "paths") path e w'
        | ok info ↦ elim info.ownership [
          | none ↦ no_ownership (codes "paths") (codes "ownership") path w'
          | some stat ↦
              let (account, w2) = host.user_name_by_uid stat.uid w' in
              let (t, w3) = host.now w2 in
              let uid = itoa (pos stat.uid) in
              elim account [
                | err cause ↦ (
                  path_result insufficient_data parse_error absent absent
                      (path_evidence (codes "fs.lstat+accountdb")
                        (raw_pairs (
                          (codes "path", host.resolved_path path)
                          ∷ (codes "uid", uid)
                          ∷ (codes "accountDB", host.passwd_path)
                          ∷ (codes "error", cause)
                          ∷ []))
                        t)
                      (codes "unable to resolve owner UID "
                        ++ (uid
                            ++ (codes " for " ++ (path ++ (codes " using " ++ host.passwd_path))))),
                  w3,
                )
                | ok name ↦ (
                  compare_result (codes "path") (codes "owner") spec.owner name (
                      path_evidence (codes "fs.lstat")
                        (raw_pairs (
                          (codes "path", host.resolved_path path)
                          ∷ (codes "uid", uid)
                          ∷ (codes "username", name)
                          ∷ []))
                        t),
                  w3,
                )
              ]
        ]
      ]

  run_group : Text → PathSpec → W → CheckResult × W
  run_group path spec w =
      let (found, w') = host.lstat path w in
      elim found [
        | err e ↦ lstat_failure (codes "paths") path e w'
        | ok info ↦ elim info.ownership [
          | none ↦ no_ownership (codes "paths") (codes "group") path w'
          | some stat ↦
              let (account, w2) = host.group_name_by_gid stat.gid w' in
              let (t, w3) = host.now w2 in
              let gid = itoa (pos stat.gid) in
              elim account [
                | err cause ↦ (
                  path_result insufficient_data parse_error absent absent
                      (path_evidence (codes "fs.lstat+accountdb")
                        (raw_pairs (
                          (codes "path", host.resolved_path path)
                          ∷ (codes "gid", gid)
                          ∷ (codes "accountDB", host.group_path)
                          ∷ (codes "error", cause)
                          ∷ []))
                        t)
                      (codes "unable to resolve group GID "
                        ++ (gid
                            ++ (codes " for " ++ (path ++ (codes " using " ++ host.group_path))))),
                  w3,
                )
                | ok name ↦ (
                  compare_result (codes "path") (codes "group") spec.group name (
                      path_evidence (codes "fs.lstat")
                        (raw_pairs (
                          (codes "path", host.resolved_path path)
                          ∷ (codes "gid", gid)
                          ∷ (codes "group", name)
                          ∷ []))
                        t),
                  w3,
                )
              ]
        ]
      ]

  -- The `switch` of `Run`
  unfoldable pub run_kind : PathKind → Text → PathSpec → W → CheckResult × W
  unfolding error_result lstat_failure no_ownership run_exists run_type run_mode run_owner run_group
  run_kind exists path spec w = run_exists path w
  run_kind type path spec w = run_type path spec w
  run_kind mode path spec w = run_mode path spec w
  run_kind owner path spec w = run_owner path spec w
  run_kind group path spec w = run_group path spec w

  -- `Run`
  unfoldable pub run_path_check : PathKind → Text → PathSpec → Context → W → CheckResult × W
  unfolding error_result run_kind
  run_path_check kind path spec ctx w = elim ctx.failure [
    | some failure ↦
        error_result (codes "paths") path timeout
          (codes "collector context cancelled before check started") (host.context_text failure) w
    | none ↦ run_kind kind path spec w
  ]

  abbrev pub path_check : PathSpec → Text × PathKind → Check W
  path_check spec (path, kind) = record {
    id = path_id path kind;
    domain = codes "paths";
    prerequisites = path_prerequisites path kind;
    run = λ ctx w. let (r, w') = run_path_check kind path spec ctx w in (returned r, w');
  }

  unfoldable pub checks_of : PathSpec → List (Text × PathKind) → List (Check W)
  checks_of spec [] = []
  checks_of spec (k ∷ ks) = path_check spec k ∷ checks_of spec ks

  -- `BuildPathChecks`, for the paths of a contract by sorted key
  unfoldable pub build_path_checks : List (Text × PathSpec) → List (Check W)
  unfolding checks_of
  build_path_checks paths = build (λ path spec. checks_of spec (path_kinds path spec)) paths
