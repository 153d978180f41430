-- ===== src/Collectors/Process.antt =====
-- internal/collectors/identity.go: what the kernel shows of a process, in /proc/PID/status and
-- /proc/PID/cgroup.
pub mod Mask
use savk.Base.{
  ℕ, zero, suc, ◌+◌, ◌/◌, ◌%◌, ◌^◌, Bool, true, false, ◌||◌, List, [], ◌∷◌, ◌++◌, Option, none,
  some, Result, ok, err, ◌>>=◌, ◌==◌, if◌then◌else◌, is_empty,
}
use savk.Base.Int.{ℤ, pos}
use savk.Text.{Text, text_eq, codes}
use savk.Text.Order.{sort_strings}
use savk.Text.Number.{itoa, atoi, parse_uint}
use savk.Text.Ops.{split, cut}
use savk.Text.Space.{trim_space, fields}
use savk.Capabilities.{linux_capability_name}
use savk.Engine.{ContextError, Context}
use savk.Collectors.Systemctl.{CollectorError, err_process_parse, foreign, Properties, property}

-- `ProcessStatus`
pub record ProcessStatus : Type 0 where
  pub uid : ℤ
  pub gid : ℤ
  pub effective : List Text
  pub permitted : List Text
  pub inheritable : List Text
  pub bounding : List Text
  pub ambient : List Text
  pub cgroups : List Text
  pub raw : Text

-- `ProcessStatus{}`
abbrev pub no_status : ProcessStatus
no_status = record {
  uid = pos 0;
  gid = pos 0;
  effective = [];
  permitted = [];
  inheritable = [];
  bounding = [];
  ambient = [];
  cgroups = [];
  raw = [];
}

-- `linuxCapabilityName` of identity.go, which names every bit.
unfoldable pub capability_name : ℕ → Text
unfolding linux_capability_name
capability_name bit = elim (linux_capability_name (pos bit)) [
  | [] ↦ codes "CAP_UNKNOWN_" ++ itoa (pos bit)
  | c ∷ name ↦ c ∷ name
]

-- `mask&(1<<bit) != 0`
unfoldable pub has_bit : ℕ → ℕ → Bool
has_bit mask bit = (mask / 2 ^ bit) % 2 == 1

-- The loop of `parseCapabilityMask` over so many bits, from `bit` on.
unfoldable pub mask_names : ℕ → ℕ → ℕ → List Text
unfolding has_bit capability_name
mask_names mask zero bit = []
mask_names mask (suc left) bit =
    let rest = mask_names mask left (suc bit) in
    if has_bit mask bit then capability_name bit ∷ rest else rest

-- `parseCapabilityMask`
unfoldable pub parse_capability_mask : Text → Result CollectorError (List Text)
unfolding mask_names
parse_capability_mask raw =
    let value = trim_space raw in
    if text_eq value [] then err err_process_parse else elim (parse_uint 16 64 value) [
      | none ↦ err err_process_parse
      | some mask ↦ ok (sort_strings (mask_names mask 64 0))
    ]

-- `parseEffectiveID`, of which every error becomes `errProcessParse`.
unfoldable pub parse_effective_id : Text → Result CollectorError ℤ
unfolding fields
parse_effective_id value = elim (fields value) [
  | [] ↦ err err_process_parse
  | _ ∷ parts ↦ elim parts [
    | [] ↦ err err_process_parse
    | part ∷ _ ↦ elim (atoi part) [ none ↦ err err_process_parse | some n ↦ ok n ]
  ]
]

-- The loop of `parseProcessStatus` over the lines.
unfoldable pub parse_status_lines : List Text → Properties → Result CollectorError Properties
parse_status_lines [] ps = ok ps
parse_status_lines (raw ∷ lines) ps =
    let line = trim_space raw in
    let next = parse_status_lines lines in
    if text_eq line [] then next ps else elim (cut line b':') [
      | none ↦ err err_process_parse
      | some ([], value) ↦ err err_process_parse
      | some (c ∷ key, value) ↦ next ((c ∷ key, trim_space value) ∷ ps)
    ]

-- The fields of `parseProcessStatus`, once the lines are read.
unfoldable pub status_of_fields : Text → Properties → Result CollectorError ProcessStatus
unfolding parse_effective_id parse_capability_mask property
status_of_fields raw ps = do
  uid ← parse_effective_id (property ps (codes "Uid"))
  gid ← parse_effective_id (property ps (codes "Gid"))
  effective ← parse_capability_mask (property ps (codes "CapEff"))
  permitted ← parse_capability_mask (property ps (codes "CapPrm"))
  inheritable ← parse_capability_mask (property ps (codes "CapInh"))
  bounding ← parse_capability_mask (property ps (codes "CapBnd"))
  ambient ← parse_capability_mask (property ps (codes "CapAmb"))
  ok (record {
    uid = uid;
    gid = gid;
    effective = effective;
    permitted = permitted;
    inheritable = inheritable;
    bounding = bounding;
    ambient = ambient;
    cgroups = [];
    raw = raw;
  })

-- `parseProcessStatus`
unfoldable pub parse_process_status : Text → Result CollectorError ProcessStatus
unfolding parse_status_lines status_of_fields
parse_process_status input =
    let raw = trim_space input in
    if text_eq raw []
    then err err_process_parse
    else parse_status_lines (split raw b'\n') [] >>= status_of_fields raw

-- The third part of `strings.SplitN(line, ":", 3)`.
unfoldable pub third_part : Text → Option Text
third_part line = elim (cut line b':') [
  | none ↦ none
  | some (first, rest) ↦ elim (cut rest b':') [ none ↦ none | some (second, third) ↦ some third ]
]

-- The loop of `parseProcessCgroups`
unfoldable pub parse_cgroup_lines : List Text → List Text → Result CollectorError (List Text)
unfolding third_part
parse_cgroup_lines [] cgroups = ok cgroups
parse_cgroup_lines (raw ∷ lines) cgroups =
    let line = trim_space raw in
    let next = parse_cgroup_lines lines in
    if text_eq line [] then next cgroups else elim (third_part line) [
      | none ↦ err err_process_parse
      | some part ↦
          if text_eq (trim_space part) []
          then err err_process_parse
          else next (cgroups ++ (trim_space part ∷ []))
    ]

-- `parseProcessCgroups`
unfoldable pub parse_process_cgroups : Text → Result CollectorError (List Text)
unfolding parse_cgroup_lines
parse_process_cgroups input =
    let raw = trim_space input in
    if text_eq raw [] then err err_process_parse else do
      cgroups ← parse_cgroup_lines (split raw b'\n') []
      if is_empty cgroups then err err_process_parse else ok cgroups

-- The loop of `cgroupsContain`
unfoldable pub some_cgroup : List Text → Text → Bool
some_cgroup [] expected = false
some_cgroup (observed ∷ cgroups) expected =
    text_eq (trim_space observed) expected || some_cgroup cgroups expected

-- `cgroupsContain`
unfoldable pub cgroups_contain : List Text → Text → Bool
unfolding some_cgroup
cgroups_contain cgroups raw =
    let expected = trim_space raw in
    if text_eq expected [] then false else some_cgroup cgroups expected

-- `ProcessReader`
abbrev pub ProcessReader : Type 0 → Type 0
ProcessReader W = Context → ℤ → W → (ProcessStatus × Option CollectorError) × W

-- What `OSProcessReader` calls: `os.ReadFile`, and the error that `ctx.Err()` is.
pub record ProcessFiles (W : Type 0) : Type 0 where
  pub read_file : Text → W → Result CollectorError Text × W
  pub context_error : ContextError → CollectorError

-- The end of `ReadStatus`, with the two files read.
unfoldable pub status_of_files : Text → Text → Result CollectorError ProcessStatus
unfolding parse_process_status parse_process_cgroups
status_of_files status_data cgroup_data = do
  status ← parse_process_status status_data
  cgroups ← parse_process_cgroups cgroup_data
  let trimmed = trim_space cgroup_data
  ok (record status {
    cgroups = cgroups;
    raw = if text_eq trimmed [] then status.raw else status.raw ++ (codes "\n---\n" ++ trimmed);
  })

-- A value and no error, or an error and `ProcessStatus{}`.
abbrev pub returned_status :
    Result CollectorError ProcessStatus → ProcessStatus × Option CollectorError
returned_status (err e) = (no_status, some e)
returned_status (ok status) = (status, none)

-- `ReadStatus` of `OSProcessReader`
unfoldable pub read_status : {W : Type 0} → ProcessFiles W → ProcessReader W
unfolding status_of_files
read_status files ctx pid w = elim ctx.failure [
  | some failure ↦ (returned_status (err (files.context_error failure)), w)
  | none ↦
      let base = codes "/proc/" ++ itoa pid in
      let (status_data, w1) = files.read_file (base ++ codes "/status") w in
      elim status_data [
        | err e ↦ (returned_status (err e), w1)
        | ok text ↦
            let (cgroup_data, w2) = files.read_file (base ++ codes "/cgroup") w1 in
            elim cgroup_data [
              | err e ↦ (returned_status (err e), w2)
              | ok cgroup_text ↦ (returned_status (status_of_files text cgroup_text), w2)
            ]
      ]
]
