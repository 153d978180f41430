-- ===== src/Collectors/Paths.antt =====
-- internal/collectors/paths.go: the checks of the domain "paths", for a host root that is given or
-- not.
pub mod Results
pub mod Run
pub mod Ids
pub mod Closed
use savk.Base.{
  ℕ, zero, suc, ◌+◌, ◌*◌, ◌/◌, ◌%◌, Bool, true, false, List, [], ◌∷◌, ◌++◌, Result, ok, err, ltb,
  if◌then◌else◌, Option, none, some,
}
use savk.Base.Int.{pos}
use savk.Text.{Text, text_eq, codes}
use savk.Text.Number.{itoa}
use savk.Evidence.{
  Time, EvalStatus, pass, fail, error, insufficient_data, ReasonCode, reasonless, timeout,
  permission_denied, not_found, parse_error, Evidence, Value, absent, truth, text, CheckResult,
}
use savk.Contract.Schema.{PathSpec}
use savk.Engine.{ContextError, Context, Outcome, returned, Check}

-- What the source reads of an `os.FileMode`: its bits, whether it is regular, a directory or a socket,
-- and `String()`.
pub record FileMode : Type 0 where
  pub bits : ℕ
  pub setuid : Bool
  pub setgid : Bool
  pub sticky : Bool
  pub is_regular : Bool
  pub is_dir : Bool
  pub is_socket : Bool
  pub printed : Text

-- The `Uid` and `Gid` of a `syscall.Stat_t`.
pub record Ownership : Type 0 where
  pub uid : ℕ
  pub gid : ℕ

-- What the source reads of an `os.FileInfo`; `Sys()` may be something else.
pub record FileInfo : Type 0 where
  pub mode : FileMode
  pub ownership : Option Ownership

-- An error of `Lstat`, by `os.IsNotExist`, `os.IsPermission` and its text.
pub record StatError : Type 0 where
  pub is_not_exist : Bool
  pub is_permission : Bool
  pub message : Text

-- What the checks call: `PathChecker` with `resolvedPath`, `AccountResolver`, the clock, and the
-- text of a context's error.
pub record PathHost (W : Type 0) : Type 0 where
  pub lstat : Text → W → Result StatError FileInfo × W
  pub resolved_path : Text → Text
  pub user_name_by_uid : ℕ → W → Result Text Text × W
  pub group_name_by_gid : ℕ → W → Result Text Text × W
  pub passwd_path : Text
  pub group_path : Text
  pub now : W → Time × W
  pub context_text : ContextError → Text

-- The `kind` of a `pathCheck`, one of five strings.
pub data PathKind : Type 0 where
  exists type mode owner group : PathKind

unfoldable pub kind_text : PathKind → Text
kind_text exists = codes "exists"
kind_text type = codes "type"
kind_text mode = codes "mode"
kind_text owner = codes "owner"
kind_text group = codes "group"

-- `fmt.Sprintf("path.%s.exists", path)`, and for the other kinds
unfoldable pub path_id : Text → PathKind → Text
path_id path kind = codes "path." ++ (path ++ (codes "." ++ kind_text kind))

unfoldable pub observed_path_type : FileMode → Text
observed_path_type m =
    if m.is_regular then codes "file" else if m.is_dir then codes "directory" else codes "other"

-- `value` with so many octal digits: `%04o` and `%05o` of a value that needs no more.
unfoldable pub octal_digits : ℕ → ℕ → Text
octal_digits zero value = []
octal_digits (suc width) value = octal_digits width (value / 8) ++ ((b'0' + value % 8) ∷ [])

unfoldable pub mode_value : FileMode → ℕ
mode_value m =
    m.bits % 0o1000
    + (if m.setuid then 0o4000 else 0)
    + (if m.setgid then 0o2000 else 0)
    + (if m.sticky then 0o1000 else 0)

unfoldable pub format_file_mode : FileMode → Text
format_file_mode m =
    let value = mode_value m in
    if ltb 0o777 value then octal_digits 5 value else octal_digits 4 value

unfoldable pub map_stat_error : StatError → ReasonCode
map_stat_error e = if e.is_permission then permission_denied else parse_error

-- `spec.Type != ""` and the like: the check of this kind, if the spec sets the field.
abbrev pub if_set : Text → Text → PathKind → List (Text × PathKind)
if_set field path kind = if text_eq field [] then [] else (path, kind) ∷ []

-- The kinds of checks that a path gets.
unfoldable pub path_kinds : Text → PathSpec → List (Text × PathKind)
path_kinds path spec =
    (path, exists)
    ∷ (if_set spec.kind path type
        ++ (if_set spec.mode path mode
            ++ (if_set spec.owner path owner ++ if_set spec.group path group)))

-- `Prerequisites`
unfoldable pub path_prerequisites : Text → PathKind → List Text
path_prerequisites path exists = []
path_prerequisites path _ = path_id path exists ∷ []
