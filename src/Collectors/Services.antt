-- ===== src/Collectors/Services.antt =====
-- internal/collectors/services.go: the checks of the domain "services", which share one reader of
-- units.
pub mod Failures
pub mod Read
pub mod Run
pub mod Ordered
use savk.Base.{
  Bool, true, false, List, [], ◌∷◌, ◌++◌, Option, none, some, Result, ok, err, if◌then◌else◌,
}
use savk.Base.Int.{ℤ, pos, int_eq}
use savk.Text.{Text, text_eq, codes}
use savk.Text.Space.{trim_space}
use savk.Evidence.{Time}
use savk.Contract.Schema.{ServiceSpec, RunAsSpec}
use savk.Engine.{ContextError, Context, Check, returned}
use savk.Collectors.Accounts.{Cell, AccountResolver}
use savk.Collectors.Build.{build}
use savk.Collectors.Systemctl.{
  CollectorError, CommandResult, CommandRunner, Properties, find_cached, program, property,
}

-- `serviceUnitResult`
pub record ServiceUnit : Type 0 where
  pub properties : Properties
  pub exit_code : ℤ
  pub raw : Text
  pub failure : Option CollectorError

-- `exitCodePtr` of a unit
unfoldable pub unit_exit_code : ServiceUnit → Option ℤ
unit_exit_code u = if int_eq u.exit_code (pos 0) then none else some u.exit_code

-- What the reader of units and the checks call, with the path or the error that
-- `resolveSystemctlPathForRunner` returns, and the map that the reader keeps. `lower` and `upper`
-- stand for `strings.ToLower` and `strings.ToUpper`.
pub record ServiceHost (W : Type 0) : Type 0 where
  pub runner : CommandRunner W
  pub systemctl : Result CollectorError Text
  pub units : Cell (List (Text × ServiceUnit)) W
  pub resolver : AccountResolver W
  pub now : W → Time × W
  pub context_text : ContextError → Text
  pub lower : Text → Text
  pub upper : Text → Text

-- The `kind` of a `serviceCheck`, one of five strings.
pub data ServiceKind : Type 0 where
  state restart run_as_user run_as_group capabilities : ServiceKind

unfoldable pub service_kind_text : ServiceKind → Text
service_kind_text state = codes "state"
service_kind_text restart = codes "restart"
service_kind_text run_as_user = codes "run_as.user"
service_kind_text run_as_group = codes "run_as.group"
service_kind_text capabilities = codes "capabilities"

-- `fmt.Sprintf("service.%s.state", name)`, and for the other kinds
unfoldable pub service_id : Text → ServiceKind → Text
unfolding service_kind_text
service_id name kind = codes "service." ++ (name ++ (codes "." ++ service_kind_text kind))

-- `Prerequisites`
unfoldable pub service_prerequisites : Text → ServiceKind → List Text
unfolding service_id
service_prerequisites name state = []
service_prerequisites name _ = service_id name state ∷ []

-- `command` of a `serviceUnitReader`
unfoldable pub unit_command : Result CollectorError Text → Text → List Text
unfolding program
unit_command systemctl name =
    program systemctl
    ∷ codes "show"
    ∷ name
    ∷ codes "--property=LoadState"
    ∷ codes "--property=ActiveState"
    ∷ codes "--property=Restart"
    ∷ codes "--property=User"
    ∷ codes "--property=Group"
    ∷ codes "--property=AmbientCapabilities"
    ∷ []

module _ {W : Type 0} (resolver : AccountResolver W) where
  -- `observedServiceUser`
  unfoldable pub observed_service_user : ServiceUnit → W → Result Text Text × W
  unfolding property
  observed_service_user u w =
      let value = trim_space (property u.properties (codes "User")) in
      if text_eq value [] then (ok (codes "root"), w) else resolver.user_value value w

  -- `observedServiceGroup`
  unfoldable pub observed_service_group : ServiceUnit → W → Result Text Text × W
  unfolding observed_service_user
  observed_service_group u w =
      let value = trim_space (property u.properties (codes "Group")) in
      let (user, w') = observed_service_user u w in
      if text_eq value []
      then (elim user [ err e ↦ (err e, w') | ok name ↦ resolver.primary_group name w' ])
      else resolver.group_value value w

-- The kinds of checks that a service gets.
unfoldable pub service_kinds : Bool → ServiceSpec → List ServiceKind
service_kinds state_only spec =
    state
    ∷ (if state_only
        then []
        else (elim spec.restart [ none ↦ [] | some _ ↦ restart ∷ [] ])
          ++ ((elim spec.run_as [
            | none ↦ []
            | some r ↦ run_as_user ∷ (if text_eq r.group [] then [] else run_as_group ∷ [])
          ])
              ++ (elim spec.capabilities [ none ↦ [] | some _ ↦ capabilities ∷ [] ])))
