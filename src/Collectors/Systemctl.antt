-- ===== src/Collectors/Systemctl.antt =====
-- internal/collectors/services.go: the command systemctl, its output, and the errors of the checks
-- that call it.
pub mod Runner
use savk.Base.{
  ◌≡◌, arith, Bool, true, false, not, ◌&&◌, ◌||◌, List, [], ◌∷◌, ◌++◌, Option, none, some, Result,
  ok, err, ◌>>=◌, if◌then◌else◌,
}
use savk.Base.Int.{ℤ}
use savk.Text.{Text, text_eq, text_eq_iff, codes}
use savk.Text.FilePath.{clean}
use savk.Text.Ops.{has_prefix, contains_text, split, join, cut}
use savk.Text.Space.{trim_space}
use savk.Engine.{Context}

-- An error of another package, by what `errors.Is` says of the errors of `context`, `fs.ErrPermission`
-- and `os.ErrNotExist`, and by its text.
pub record ForeignError : Type 0 where
  pub is_context : Bool
  pub is_permission : Bool
  pub is_not_exist : Bool
  pub message : Text

-- The errors that the collectors name, two of them with what `fmt.Errorf` wraps into them.
pub data CollectorError : Type 0 where
  err_service_not_found err_namespace_isolation err_permission_denied : CollectorError
  err_service_parse err_main_pid_parse err_process_parse err_process_provenance : CollectorError
  err_command_unavailable err_unexpected_command : Text → CollectorError
  foreign : ForeignError → CollectorError

-- `Error()`
unfoldable pub error_text : CollectorError → Text
error_text err_service_not_found = codes "service not found"
error_text err_namespace_isolation = codes "systemd unavailable"
error_text err_permission_denied = codes "permission denied"
error_text err_service_parse = codes "service parse error"
error_text err_main_pid_parse = codes "main pid parse error"
error_text err_process_parse = codes "process status parse error"
error_text err_process_provenance = codes "process provenance mismatch"
error_text (err_command_unavailable cause) = codes "command unavailable: " ++ cause
error_text (err_unexpected_command path) = codes "unexpected command path: " ++ path
error_text (foreign e) = e.message

-- `errors.Is(err, context.DeadlineExceeded), errors.Is(err, context.Canceled)`
unfoldable pub is_context_error : CollectorError → Bool
is_context_error (foreign e) = e.is_context
is_context_error _ = false

-- `CommandResult`
pub record CommandResult : Type 0 where
  pub exit_code : ℤ
  pub stdout : Text
  pub stderr : Text

-- `CommandRunner`
abbrev pub CommandRunner : Type 0 → Type 0
CommandRunner W = Context → List Text → W → (CommandResult × Option CollectorError) × W

-- A map of strings: the entry that was set last stands first.
abbrev pub Properties : Type 0
Properties = List (Text × Text)

unfoldable pub find_property : Text → Properties → Option Text
find_property key [] = none
find_property key ((k, v) ∷ ps) = if text_eq key k then some v else find_property key ps

-- `properties[key]`, which is empty if the key is missing.
unfoldable pub property : Properties → Text → Text
unfolding find_property
property ps key = elim (find_property key ps) [ none ↦ [] | some v ↦ v ]

-- The first loop of `parseSystemctlProperties`, over the lines.
unfoldable pub parse_property_lines : List Text → Properties → Result CollectorError Properties
parse_property_lines [] ps = ok ps
parse_property_lines (raw ∷ lines) ps =
    let line = trim_space raw in
    let next = parse_property_lines lines in
    if text_eq line [] then next ps else elim (cut line b'=') [
      | none ↦ err err_service_parse
      | some ([], value) ↦ err err_service_parse
      | some (c ∷ key, value) ↦ next ((c ∷ key, value) ∷ ps)
    ]

-- The second loop, over the required keys.
unfoldable pub has_properties : List Text → Properties → Bool
unfolding find_property
has_properties [] ps = true
has_properties (key ∷ keys) ps = elim (find_property key ps) [
  | none ↦ false
  | some v ↦ has_properties keys ps
]

-- `parseSystemctlProperties`
unfoldable pub parse_systemctl_properties : Text → List Text → Result CollectorError Properties
unfolding parse_property_lines has_properties
parse_systemctl_properties stdout required = do
  ps ← parse_property_lines (split (trim_space stdout) b'\n') []
  if has_properties required ps then ok ps else err err_service_parse

-- `parseSystemctlShow`
unfoldable pub parse_systemctl_show : Text → Result CollectorError Properties
unfolding parse_systemctl_properties property
parse_systemctl_show stdout = do
  ps ← parse_systemctl_properties stdout (
      codes "LoadState"
      ∷ codes "ActiveState"
      ∷ codes "Restart"
      ∷ codes "User"
      ∷ codes "Group"
      ∷ codes "AmbientCapabilities"
      ∷ [])
  if text_eq (property ps (codes "LoadState")) (codes "not-found")
      then err err_service_not_found
      else ok ps

-- The properties say that the unit was not found.
unfoldable pub says_not_found : Text → Bool
unfolding parse_systemctl_properties property
says_not_found stdout =
    not (text_eq (trim_space stdout) []) && (elim (parse_systemctl_properties stdout []) [
      | err e ↦ false
      | ok ps ↦ text_eq (property ps (codes "LoadState")) (codes "not-found")
    ])

-- `mapSystemctlFailure`; `lower` stands for `strings.ToLower`.
unfoldable pub map_systemctl_failure : (Text → Text) → CommandResult → CollectorError
unfolding says_not_found
map_systemctl_failure lower result =
    let combined = lower (trim_space (result.stdout ++ (codes "\n" ++ result.stderr))) in
    if says_not_found result.stdout
    then err_service_not_found
    else if contains_text combined (codes "could not be found")
        || contains_text combined (codes "not-found")
        || (contains_text combined (codes "unit ") && contains_text combined (codes " not found"))
    then err_service_not_found
    else if contains_text combined (codes "permission denied")
    then err_permission_denied
    else if contains_text combined (codes "system has not been booted with systemd")
        || contains_text combined (codes "failed to connect to bus")
        || contains_text combined (codes "host is down")
    then err_namespace_isolation
    else err_service_parse

-- `result.raw` of the readers, from the two outputs of a command.
unfoldable pub combined_output : CommandResult → Text
combined_output result =
    let out = trim_space result.stdout in
    let more = trim_space result.stderr in
    if text_eq more [] then out else (if text_eq out [] then out else out ++ codes "\n") ++ more

-- `resolveAllowedSystemctlPath`, from what `lookPathExecutable("systemctl")` returns.
unfoldable pub resolve_allowed_systemctl_path : Result Text Text → Result CollectorError Text
resolve_allowed_systemctl_path (err cause) = err (err_command_unavailable cause)
resolve_allowed_systemctl_path (ok found) =
    let path = clean found in
    if text_eq path (codes "/usr/bin/systemctl") || text_eq path (codes "/bin/systemctl")
    then ok path
    else err (err_unexpected_command path)

-- `resolveSystemctlPathForRunner`: whether the runner is an `OSCommandRunner`.
unfoldable pub resolve_systemctl_path_for_runner :
    Result Text Text → Bool → Result CollectorError Text
unfolding resolve_allowed_systemctl_path
resolve_systemctl_path_for_runner found true = resolve_allowed_systemctl_path found
resolve_systemctl_path_for_runner found false = ok (codes "systemctl")

-- `command[0]`: a reader without a path keeps an empty `systemctlPath`.
unfoldable pub program : Result CollectorError Text → Text
program (err e) = codes "systemctl"
program (ok path) = if text_eq path [] then codes "systemctl" else path

-- `describeSystemctlEnvironmentError`
unfoldable pub describe_environment_error : CollectorError → Text
unfolding error_text
describe_environment_error (err_command_unavailable cause) =
    codes
      "systemctl is not available in PATH; service-backed checks currently require an allowlisted absolute observer-local systemctl path"
describe_environment_error (err_unexpected_command path) =
    codes
      "resolved systemctl path is outside the current allowlist; service-backed checks currently require /usr/bin/systemctl or /bin/systemctl ("
    ++ (error_text (err_unexpected_command path) ++ codes ")")
describe_environment_error e = error_text e

-- The loop of `stableLocaleEnv`
unfoldable pub without_locale : List Text → List Text
without_locale [] = []
without_locale (entry ∷ base) =
    let rest = without_locale base in
    if has_prefix entry (codes "LANG=") || has_prefix entry (codes "LC_ALL=")
    then rest
    else entry ∷ rest

-- `stableLocaleEnv`
unfoldable pub stable_locale_env : List Text → List Text
unfolding without_locale
stable_locale_env base = without_locale base ++ (codes "LANG=C" ∷ codes "LC_ALL=C" ∷ [])

-- `equalStrings`
unfoldable pub equal_strings : List Text → List Text → Bool
equal_strings [] [] = true
equal_strings (x ∷ xs) (y ∷ ys) = text_eq x y && equal_strings xs ys
equal_strings _ _ = false

-- `%v` of strings
unfoldable pub shown_strings : List Text → Text
shown_strings values = codes "[" ++ (join values (codes " ") ++ codes "]")

-- A map that a reader fills under its mutex.
unfoldable pub find_cached : {A : Type 0} → Text → List (Text × A) → Option A
find_cached key [] = none
find_cached key ((k, a) ∷ cache) = if text_eq key k then some a else find_cached key cache

-- What is in the cache stays in it behind a new key.
pub find_cached-cons :
    {A : Type 0} (key new : Text) (a b : A) (cache : List (Text × A))
    → find_cached new cache ≡ none
    → find_cached key cache ≡ some a
    → find_cached key ((new, b) ∷ cache) ≡ some a
unfolding find_cached
find_cached-cons key new a b cache absent here = ground (arith, text_eq_iff key new)
