-- ===== src/Collectors/Sockets.antt =====
-- internal/collectors/sockets.go: the checks of the domain "sockets". What they call is what the
-- checks of paths call.
pub mod Passing
pub mod Ordered
use savk.Base.{
  ℕ, Bool, true, false, List, [], ◌∷◌, ◌++◌, Result, ok, err, if◌then◌else◌, Option, none, some,
}
use savk.Base.Int.{pos}
use savk.Text.{Text, text_eq, codes}
use savk.Text.Number.{itoa}
use savk.Evidence.{
  EvalStatus, pass, fail, insufficient_data, ReasonCode, reasonless, timeout, not_found,
  parse_error, Evidence, Value, absent, truth, CheckResult,
}
use savk.Contract.Schema.{SocketSpec}
use savk.Engine.{ContextError, Context, Outcome, returned, Check}
use savk.Collectors.Paths.{
  FileMode, Ownership, FileInfo, StatError, PathHost, format_file_mode, map_stat_error,
}
use savk.Collectors.Paths.Run.{error_result, lstat_failure, no_ownership}
use savk.Collectors.Paths.Results.{file_evidence, path_result, raw_pairs, compare_result}
use savk.Collectors.Build.{build}

-- The `kind` of a `socketCheck`, one of four strings.
pub data SocketKind : Type 0 where
  exists owner group mode : SocketKind

unfoldable pub socket_kind_text : SocketKind → Text
socket_kind_text exists = codes "exists"
socket_kind_text owner = codes "owner"
socket_kind_text group = codes "group"
socket_kind_text mode = codes "mode"

-- `fmt.Sprintf("socket.%s.exists", path)`, and for the other kinds
unfoldable pub socket_id : Text → SocketKind → Text
unfolding socket_kind_text
socket_id path kind = codes "socket." ++ (path ++ (codes "." ++ socket_kind_text kind))

-- `Prerequisites`
unfoldable pub socket_prerequisites : Text → SocketKind → List Text
unfolding socket_id
socket_prerequisites path exists = []
socket_prerequisites path _ = socket_id path exists ∷ []

-- The evidence of a socket check.
abbrev socket_evidence : Text → Text → ℕ → Evidence
socket_evidence source raw t = file_evidence (codes "sockets") source raw t

module _ {W : Type 0} (host : PathHost W) where
  -- `runExists`
  unfoldable pub run_socket_exists : Text → W → CheckResult × W
  unfolding lstat_failure
  run_socket_exists path w =
      let (found, w') = host.lstat path w in
      let (t, w'') = host.now w' in
      let resolved = host.resolved_path path in
      elim found [
        | ok info ↦
            let printed = info.mode.printed in
            let is_socket = info.mode.is_socket in
            let ev =
              socket_evidence (codes "fs.lstat")
                (raw_pairs ((codes "path", resolved) ∷ (codes "mode", printed) ∷ [])) t in
            (
              (if is_socket
                  then path_result pass reasonless (truth true) (truth is_socket) ev
                      (codes "socket exists")
                  else path_result fail reasonless (truth true) (truth is_socket) ev (
                      codes "expected unix socket at "
                      ++ (path ++ (codes ", observed " ++ printed)))),
              w'',
            )
        | err e ↦
            if e.is_not_exist
            then (
              path_result fail not_found (truth true) (truth false)
                  (socket_evidence (codes "fs.lstat")
                    (raw_pairs ((codes "path", resolved) ∷ (codes "error", e.message) ∷ [])) t)
                  (codes "expected socket " ++ (path ++ codes " to exist")),
              w'',
            )
            else lstat_failure host (codes "sockets") path e w'
      ]

  -- `runOwner`
  unfoldable pub run_socket_owner : Text → SocketSpec → W → CheckResult × W
  unfolding lstat_failure no_ownership compare_result
  run_socket_owner path spec w =
      let (found, w') = host.lstat path w in
      let resolved = host.resolved_path path in
      elim found [
        | err e ↦ lstat_failure host (codes "sockets") path e w'
        | ok info ↦ elim info.ownership [
          | none ↦ no_ownership host (codes "sockets") (codes "ownership") path w'
          | some stat ↦
              let (account, w2) = host.user_name_by_uid stat.uid w' in
              let (t, w3) = host.now w2 in
              let uid = itoa (pos stat.uid) in
              elim account [
                | err cause ↦ (
                  path_result insufficient_data parse_error absent absent
                      (socket_evidence (codes "fs.lstat+accountdb")
                        (raw_pairs (
                          (codes "path", resolved)
                          ∷ (codes "uid", uid)
                          ∷ (codes "accountDB", host.passwd_path)
                          ∷ (codes "error", cause)
                          ∷ []))
                        t)
                      (codes "unable to resolve owner UID "
                        ++ (uid
                            ++ (codes " for " ++ (path ++ (codes " using " ++ host.passwd_path))))),
                  w3,
                )
                | ok observed ↦ (
                  compare_result (codes "socket") (codes "owner") spec.owner observed (
                      socket_evidence (codes "fs.lstat")
                        (raw_pairs (
                          (codes "path", resolved)
                          ∷ (codes "uid", uid)
                          ∷ (codes "username", observed)
                          ∷ []))
                        t),
                  w3,
                )
              ]
        ]
      ]

  -- `runGroup`
  unfoldable pub run_socket_group : Text → SocketSpec → W → CheckResult × W
  unfolding lstat_failure no_ownership compare_result
  run_socket_group path spec w =
      let (found, w') = host.lstat path w in
      let resolved = host.resolved_path path in
      elim found [
        | err e ↦ lstat_failure host (codes "sockets") path e w'
        | ok info ↦ elim info.ownership [
          | none ↦ no_ownership host (codes "sockets") (codes "group") path w'
          | some stat ↦
              let (group_name, w2) = host.group_name_by_gid stat.gid w' in
              let (t, w3) = host.now w2 in
              let gid = itoa (pos stat.gid) in
              elim group_name [
                | err cause ↦ (
                  path_result insufficient_data parse_error absent absent
                      (socket_evidence (codes "fs.lstat+accountdb")
                        (raw_pairs (
                          (codes "path", resolved)
                          ∷ (codes "gid", gid)
                          ∷ (codes "accountDB", host.group_path)
                          ∷ (codes "error", cause)
                          ∷ []))
                        t)
                      (codes "unable to resolve group GID "
                        ++ (gid
                            ++ (codes " for " ++ (path ++ (codes " using " ++ host.group_path))))),
                  w3,
                )
                | ok observed ↦ (
                  compare_result (codes "socket") (codes "group") spec.group observed (
                      socket_evidence (codes "fs.lstat")
                        (raw_pairs (
                          (codes "path", resolved)
                          ∷ (codes "gid", gid)
                          ∷ (codes "group", observed)
                          ∷ []))
                        t),
                  w3,
                )
              ]
        ]
      ]

  -- `runMode`
  unfoldable pub run_socket_mode : Text → SocketSpec → W → CheckResult × W
  unfolding lstat_failure compare_result
  run_socket_mode path spec w =
      let (found, w') = host.lstat path w in
      let (t, w'') = host.now w' in
      elim found [
        | err e ↦ lstat_failure host (codes "sockets") path e w'
        | ok info ↦ (
          compare_result (codes "socket") (codes "mode") spec.mode (format_file_mode info.mode) (
              socket_evidence (codes "fs.lstat")
                (raw_pairs (
                  (codes "path", host.resolved_path path)
                  ∷ (codes "mode", format_file_mode info.mode)
                  ∷ []))
                t),
          w'',
        )
      ]

  -- `Run`
  unfoldable pub run_socket_check : SocketKind → Text → SocketSpec → Context → W → CheckResult × W
  unfolding error_result run_socket_exists run_socket_owner run_socket_group run_socket_mode
  run_socket_check kind path spec ctx w = elim ctx.failure [
    | some failure ↦
        error_result host (codes "sockets") path timeout
          (codes "collector context cancelled before check started") (host.context_text failure) w
    | none ↦ elim kind [
      | exists ↦ run_socket_exists path w
      | owner ↦ run_socket_owner path spec w
      | group ↦ run_socket_group path spec w
      | mode ↦ run_socket_mode path spec w
    ]
  ]

  abbrev pub socket_check : Text → SocketSpec → SocketKind → Check W
  socket_check path spec kind = record {
    id = socket_id path kind;
    domain = codes "sockets";
    prerequisites = socket_prerequisites path kind;
    run = λ ctx w. let (r, w') = run_socket_check kind path spec ctx w in (returned r, w');
  }

  -- `spec.Owner != ""` and the like: the check of this kind, if the spec sets the field.
  abbrev socket_if_set : Text → Text → SocketSpec → SocketKind → List (Check W)
  socket_if_set field path spec kind =
      if text_eq field [] then [] else socket_check path spec kind ∷ []

  -- The body of the loop in `BuildSocketChecks`
  unfoldable pub socket_block : Text → SocketSpec → List (Check W)
  unfolding socket_id socket_prerequisites run_socket_check
  socket_block path spec =
      socket_check path spec exists
      ∷ (socket_if_set spec.owner path spec owner
          ++ (socket_if_set spec.group path spec group ++ socket_if_set spec.mode path spec mode))

  -- `BuildSocketChecks`, for the sockets of a contract by sorted key
  unfoldable pub build_socket_checks : List (Text × SocketSpec) → List (Check W)
  unfolding socket_block
  build_socket_checks sockets = build socket_block sockets
