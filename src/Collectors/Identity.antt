-- ===== src/Collectors/Identity.antt =====
-- internal/collectors/identity.go: the checks of the domain "identity", and the readers that they
-- share, of the main process of a service and of what the kernel shows of it.
pub mod MainPid
pub mod Observe
pub mod Run
pub mod Ordered
use savk.Base.{
  Bool, true, false, List, [], ◌∷◌, ◌++◌, Option, none, some, Result, if◌then◌else◌, is_empty,
}
use savk.Base.Int.{ℤ, pos, is_positive}
use savk.Text.{Text, text_eq, codes}
use savk.Text.Number.{itoa}
use savk.Evidence.{Time}
use savk.Contract.Schema.{IdentitySpec, CapabilitySetSpec}
use savk.Engine.{ContextError}
use savk.Collectors.Accounts.{Cell}
use savk.Collectors.Services.{service_id, state}
use savk.Collectors.Process.{ProcessStatus, ProcessReader}
use savk.Collectors.Systemctl.{CollectorError, CommandRunner}

-- `serviceMainPIDResult`
pub record MainPidResult : Type 0 where
  pub pid : ℤ
  pub control_group : Text
  pub command : List Text
  pub exit_code : ℤ
  pub raw : Text
  pub failure : Option CollectorError

-- `runtimeIdentityObservation`
pub record Observation : Type 0 where
  pub pid : ℤ
  pub control_group : Text
  pub status : ProcessStatus
  pub command : List Text
  pub exit_code : ℤ
  pub raw : Text
  pub failure : Option CollectorError

-- `source` of an observation
unfoldable pub observation_source : Observation → Text
observation_source o =
    if is_positive o.pid
    then codes "/proc/" ++ (itoa o.pid ++ codes "/status")
    else if is_empty o.command
    then codes "identity.runtime"
    else codes "systemctl show"

-- `exitCodePtr` of an observation
unfoldable pub observation_exit_code : Observation → Option ℤ
observation_exit_code o = if is_empty o.command then none else some o.exit_code

-- `withLookupSource`
unfoldable pub with_lookup_source : Observation → Observation
with_lookup_source o = record o {
  raw = if text_eq o.raw [] then codes "systemctl lookup did not complete" else o.raw;
}

-- What the readers and the checks call, and the maps that the two readers keep. `lower` stands for
-- `strings.ToLower`.
pub record IdentityHost (W : Type 0) : Type 0 where
  pub runner : CommandRunner W
  pub systemctl : Result CollectorError Text
  pub process_reader : ProcessReader W
  pub main_pids : Cell (List (Text × MainPidResult)) W
  pub observations : Cell (List (Text × Observation)) W
  pub now : W → Time × W
  pub lower : Text → Text

-- The `kind` of an `identityCheck`, one of seven strings.
pub data IdentityKind : Type 0 where
  uid gid effective permitted inheritable bounding ambient : IdentityKind

unfoldable pub identity_kind_text : IdentityKind → Text
identity_kind_text uid = codes "uid"
identity_kind_text gid = codes "gid"
identity_kind_text effective = codes "capabilities.effective"
identity_kind_text permitted = codes "capabilities.permitted"
identity_kind_text inheritable = codes "capabilities.inheritable"
identity_kind_text bounding = codes "capabilities.bounding"
identity_kind_text ambient = codes "capabilities.ambient"

-- `fmt.Sprintf("identity.%s.uid", label)`, and for the other kinds
unfoldable pub identity_id : Text → IdentityKind → Text
unfolding identity_kind_text
identity_id label kind = codes "identity." ++ (label ++ (codes "." ++ identity_kind_text kind))

-- `Prerequisites`
unfoldable pub identity_prerequisites : IdentitySpec → List Text
unfolding service_id
identity_prerequisites spec = service_id spec.service state ∷ []

-- A kind, where the spec sets its field.
abbrev pub kind_if_set : {A : Type 0} → Option A → IdentityKind → List IdentityKind
kind_if_set none kind = []
kind_if_set (some a) kind = kind ∷ []

-- The kinds of checks that a label gets.
unfoldable pub identity_kinds : IdentitySpec → List IdentityKind
identity_kinds spec =
    kind_if_set spec.uid uid
    ++ (kind_if_set spec.gid gid ++ (elim spec.capabilities [
      | none ↦ []
      | some sets ↦
          kind_if_set sets.effective effective
          ++ (kind_if_set sets.permitted permitted
              ++ (kind_if_set sets.inheritable inheritable
                  ++ (kind_if_set sets.bounding bounding ++ kind_if_set sets.ambient ambient)))
    ]))
