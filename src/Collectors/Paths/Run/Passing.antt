-- ===== src/Collectors/Paths/Run/Passing.antt =====
-- When a path check passes.
use savk.Base.{◌≡◌, Bool, true, false, ◌&&◌, none, some, Result, ok, err, arith, is_none}
use savk.Text.{Text, text_eq}
use savk.Evidence.{is_pass}
use savk.Contract.Schema.{PathSpec}
use savk.Engine.{Context}
use savk.Collectors.Paths.{
  FileInfo, StatError, PathHost, PathKind, exists, type, mode, owner, group, observed_path_type,
  format_file_mode,
}
use savk.Collectors.Paths.Run.{run_kind, run_path_check}
use savk.Collectors.Paths.Results.{compare_result}

-- What the file that `Lstat` finds has to satisfy.
unfoldable pub is_satisfied :
    {W : Type 0} → PathHost W → PathKind → PathSpec → Result StatError FileInfo → W → Bool
is_satisfied host k spec (err e) w = false
is_satisfied host exists spec (ok info) w = true
is_satisfied host type spec (ok info) w = text_eq (observed_path_type info.mode) spec.kind
is_satisfied host mode spec (ok info) w = text_eq (format_file_mode info.mode) spec.mode
is_satisfied host owner spec (ok info) w = elim info.ownership [
  | none ↦ false
  | some stat ↦ elim (host.user_name_by_uid stat.uid w).0 [
    | err e ↦ false
    | ok name ↦ text_eq name spec.owner
  ]
]
is_satisfied host group spec (ok info) w = elim info.ownership [
  | none ↦ false
  | some stat ↦ elim (host.group_name_by_gid stat.gid w).0 [
    | err e ↦ false
    | ok name ↦ text_eq name spec.group
  ]
]

module _ {W : Type 0} (host : PathHost W) where
  run_kind-is_pass :
      (k : PathKind) (path : Text) (spec : PathSpec) (w : W)
      → is_pass (run_kind host k path spec w).0.status
        ≡ is_satisfied host k spec (host.lstat path w).0 (host.lstat path w).1
  unfolding run_kind compare_result is_satisfied is_pass
  run_kind-is_pass exists path spec w = ground arith
  run_kind-is_pass type path spec w = ground arith
  run_kind-is_pass mode path spec w = ground arith
  run_kind-is_pass owner path spec w = ground arith
  run_kind-is_pass group path spec w = ground arith

  -- A path check passes just when its context has not ended, `Lstat` finds the path, and what the
  -- file shows of type, mode, owner or group is what the spec asks for.
  pub run_path_check-is_pass :
      (k : PathKind) (path : Text) (spec : PathSpec) (ctx : Context) (w : W)
      → is_pass (run_path_check host k path spec ctx w).0.status ≡ (
          is_none ctx.failure
          && is_satisfied host k spec (host.lstat path w).0 (host.lstat path w).1)
  unfolding run_path_check is_pass
  run_path_check-is_pass k path spec ctx w = ground (arith, run_kind-is_pass k path spec w)
