-- ===== src/Collectors/Sockets/Passing.antt =====
-- When a socket check passes.
use savk.Base.{◌≡◌, Bool, false, ◌&&◌, none, some, Result, ok, err, arith, is_none}
use savk.Text.{Text, text_eq}
use savk.Evidence.{is_pass}
use savk.Contract.Schema.{SocketSpec}
use savk.Engine.{Context}
use savk.Collectors.Paths.{FileInfo, StatError, PathHost, format_file_mode}
use savk.Collectors.Paths.Results.{compare_result}
use savk.Collectors.Sockets.{
  SocketKind, exists, owner, group, mode, run_socket_exists, run_socket_owner, run_socket_group,
  run_socket_mode, run_socket_check,
}

-- What the file that `Lstat` finds has to satisfy.
unfoldable pub is_socket_satisfied :
    {W : Type 0} → PathHost W → SocketKind → SocketSpec → Result StatError FileInfo → W → Bool
is_socket_satisfied host k spec (err e) w = false
is_socket_satisfied host exists spec (ok info) w = info.mode.is_socket
is_socket_satisfied host mode spec (ok info) w = text_eq (format_file_mode info.mode) spec.mode
is_socket_satisfied host owner spec (ok info) w = elim info.ownership [
  | none ↦ false
  | some stat ↦ elim (host.user_name_by_uid stat.uid w).0 [
    | err e ↦ false
    | ok name ↦ text_eq name spec.owner
  ]
]
is_socket_satisfied host group spec (ok info) w = elim info.ownership [
  | none ↦ false
  | some stat ↦ elim (host.group_name_by_gid stat.gid w).0 [
    | err e ↦ false
    | ok name ↦ text_eq name spec.group
  ]
]

-- A socket check passes just when its context has not ended, `Lstat` finds the path, and what the
-- file shows is what the spec asks for: that it is a socket, or its owner, group or mode.
pub run_socket_check-is_pass :
    {W : Type 0} (host : PathHost W) (k : SocketKind) (path : Text) (spec : SocketSpec)
    (ctx : Context) (w : W)
    → is_pass (run_socket_check host k path spec ctx w).0.status ≡ (
        is_none ctx.failure
        && is_socket_satisfied host k spec (host.lstat path w).0 (host.lstat path w).1)
unfolding run_socket_check run_socket_exists run_socket_owner run_socket_group run_socket_mode
    compare_result is_socket_satisfied is_pass
run_socket_check-is_pass host exists path spec ctx w = ground arith
run_socket_check-is_pass host owner path spec ctx w = ground arith
run_socket_check-is_pass host group path spec ctx w = ground arith
run_socket_check-is_pass host mode path spec ctx w = ground arith
