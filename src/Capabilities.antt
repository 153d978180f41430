-- ===== src/Capabilities.antt =====
-- internal/capabilities/capabilities.go: names of Linux capabilities.
use savk.Base.{
  Bool, ◌||◌, List, [], ◌∷◌, ◌++◌, none, some, ◌==◌, if◌then◌else◌, get_elem?, is_empty,
}
use savk.Base.Int.{ℤ, pos, negsuc}
use savk.Text.{Text, codes}
use savk.Text.Order.{contains, sort_strings}
use savk.Text.Space.{trim_space}
use savk.Text.Ops.{has_prefix, replace_byte}

-- `linuxCapabilityNames`, by bit
unfoldable pub linux_capability_names : List Text
linux_capability_names =
    codes "CAP_CHOWN"
    ∷ codes "CAP_DAC_OVERRIDE"
    ∷ codes "CAP_DAC_READ_SEARCH"
    ∷ codes "CAP_FOWNER"
    ∷ codes "CAP_FSETID"
    ∷ codes "CAP_KILL"
    ∷ codes "CAP_SETGID"
    ∷ codes "CAP_SETUID"
    ∷ codes "CAP_SETPCAP"
    ∷ codes "CAP_LINUX_IMMUTABLE"
    ∷ codes "CAP_NET_BIND_SERVICE"
    ∷ codes "CAP_NET_BROADCAST"
    ∷ codes "CAP_NET_ADMIN"
    ∷ codes "CAP_NET_RAW"
    ∷ codes "CAP_IPC_LOCK"
    ∷ codes "CAP_IPC_OWNER"
    ∷ codes "CAP_SYS_MODULE"
    ∷ codes "CAP_SYS_RAWIO"
    ∷ codes "CAP_SYS_CHROOT"
    ∷ codes "CAP_SYS_PTRACE"
    ∷ codes "CAP_SYS_PACCT"
    ∷ codes "CAP_SYS_ADMIN"
    ∷ codes "CAP_SYS_BOOT"
    ∷ codes "CAP_SYS_NICE"
    ∷ codes "CAP_SYS_RESOURCE"
    ∷ codes "CAP_SYS_TIME"
    ∷ codes "CAP_SYS_TTY_CONFIG"
    ∷ codes "CAP_MKNOD"
    ∷ codes "CAP_LEASE"
    ∷ codes "CAP_AUDIT_WRITE"
    ∷ codes "CAP_AUDIT_CONTROL"
    ∷ codes "CAP_SETFCAP"
    ∷ codes "CAP_MAC_OVERRIDE"
    ∷ codes "CAP_MAC_ADMIN"
    ∷ codes "CAP_SYSLOG"
    ∷ codes "CAP_WAKE_ALARM"
    ∷ codes "CAP_BLOCK_SUSPEND"
    ∷ codes "CAP_AUDIT_READ"
    ∷ codes "CAP_PERFMON"
    ∷ codes "CAP_BPF"
    ∷ codes "CAP_CHECKPOINT_RESTORE"
    ∷ []

-- `LinuxCapabilityName`
unfoldable pub linux_capability_name : ℤ → Text
unfolding linux_capability_names
linux_capability_name (pos bit) = elim (get_elem? linux_capability_names bit) [
  | none ↦ []
  | some name ↦ name
]
linux_capability_name (negsuc _) = []

-- `IsCanonical`
unfoldable pub is_canonical : Text → Bool
unfolding linux_capability_names contains
is_canonical value = contains value linux_capability_names

-- `SortCanonical`
unfoldable pub sort_canonical : List Text → List Text
unfolding sort_strings
sort_canonical values = sort_strings values

-- The pieces of `strings.FieldsFunc` at spaces, commas and tabs; `piece` is the piece at hand.
unfoldable pub fields_from : Text → Text → List Text
fields_from piece [] = if is_empty piece then [] else piece ∷ []
fields_from piece (c ∷ s) =
    let cut = fields_from [] s in
    let more = fields_from (piece ++ (c ∷ [])) s in
    if c == b' ' || c == b',' || c == b'\t'
    then (if is_empty piece then cut else piece ∷ cut)
    else more

-- `strings.ToUpper` is the library's: `upper` maps a whole text.
module _ (upper : Text → Text) where
  -- `CanonicalizeToken`
  unfoldable pub canonicalize_token : Text → Text
  unfolding trim_space replace_byte has_prefix codes
  canonicalize_token value =
      let trimmed = trim_space value in
      let name = upper (replace_byte trimmed b'-' b'_') in
      elim trimmed [
        | [] ↦ []
        | _ ∷ _ ↦ if has_prefix name (codes "CAP_") then name else codes "CAP_" ++ name
      ]

  canonical_tokens : List Text → List Text
  unfolding canonicalize_token
  canonical_tokens [] = []
  canonical_tokens (t ∷ ts) =
      let rest = canonical_tokens ts in
      let name = canonicalize_token t in if is_empty name then rest else name ∷ rest

  normalize_each : List Text → List Text
  unfolding canonical_tokens fields_from
  normalize_each [] = []
  normalize_each (v ∷ vs) = canonical_tokens (fields_from [] v) ++ normalize_each vs

  -- `NormalizeObserved`
  unfoldable pub normalize_observed : List Text → List Text
  unfolding normalize_each sort_strings
  normalize_observed values = sort_strings (normalize_each values)
