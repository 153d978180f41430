-- ===== src/CommandLine/Build.antt =====
-- cmd/savk/main.go: `buildServiceBackedChecks` and `buildChecksForDomains`.
pub mod Sockets
pub mod States
pub mod Services
pub mod Systemd
pub mod Ordered
pub mod Total
use savk.Base.{
  Bool, true, false, ◌||◌, List, [], ◌∷◌, ◌++◌, Option, none, some, Result, ok, err, ◌>>=◌,
  if◌then◌else◌, is_empty,
}
use savk.Text.{Text, text_eq, codes}
use savk.Text.Order.{contains, text_leb}
use savk.Contract.Node.{ParseError}
use savk.Contract.Schema.{ServiceSpec, IdentitySpec, Contract}
use savk.Contract.Parse.{lookup_spec, validate_semantics}
use savk.Engine.{Check}
use savk.Collectors.Preflight.{ProbeHost}
use savk.Collectors.Paths.{PathHost}
use savk.Collectors.Paths.Ids.{namespace_id}
use savk.Collectors.Sockets.{build_socket_checks}
use savk.Collectors.Services.{ServiceHost}
use savk.Collectors.Services.Run.{build_service_checks}
use savk.Collectors.Identity.{IdentityHost}
use savk.Collectors.Identity.Run.{build_identity_checks}
use savk.CommandLine.Behind.{behind_namespace}
use savk.CommandLine.Paths.{path_checks}

-- `SocketNamespaceCheckID`
unfoldable pub socket_namespace_id : Text
socket_namespace_id = codes "socket.__preflight__.namespace"

-- `ServiceNamespaceCheckID`
unfoldable pub service_namespace_id : Text
service_namespace_id = codes "service.__preflight__.namespace"

-- `contract.ServiceSpec{State: ...}`
abbrev pub only_state : Text → ServiceSpec
only_state s = record { state = s; run_as = none; restart = none; capabilities = none }

-- `synthesizedStates[name] = spec`
unfoldable pub set_service :
    Text → ServiceSpec → List (Text × ServiceSpec) → List (Text × ServiceSpec)
set_service name spec [] = (name, spec) ∷ []
set_service name spec ((k, old) ∷ states) =
    if text_eq name k then (k, spec) ∷ states else (k, old) ∷ set_service name spec states

-- The loop that fills `synthesizedStates`
unfoldable pub synthesize :
    Bool
    → List (Text × ServiceSpec)
    → List (Text × IdentitySpec)
    → List (Text × ServiceSpec)
    → List (Text × ServiceSpec)
unfolding lookup_spec set_service
synthesize include_services services [] states = states
synthesize include_services services ((label, spec) ∷ identities) states =
    synthesize include_services services identities (elim (lookup_spec services spec.service) [
      | none ↦ set_service spec.service (only_state (codes "active")) states
      | some declared ↦
          if include_services
          then states
          else set_service spec.service (only_state declared.state) states
    ])

-- The entries of a map by sorted key, as `buildServiceChecksWithResolver` takes them.
unfoldable pub insert_entry :
    Text × ServiceSpec → List (Text × ServiceSpec) → List (Text × ServiceSpec)
unfolding text_leb
insert_entry (k, v) [] = (k, v) ∷ []
insert_entry (k, v) ((x, u) ∷ entries) =
    if text_leb k x then (k, v) ∷ (x, u) ∷ entries else (x, u) ∷ insert_entry (k, v) entries

unfoldable pub sort_entries : List (Text × ServiceSpec) → List (Text × ServiceSpec)
unfolding insert_entry
sort_entries [] = []
sort_entries (entry ∷ entries) = insert_entry entry (sort_entries entries)

-- What the collectors call. `BuildServiceChecks`, `BuildServiceStateChecks` and
-- `BuildIdentityChecks` make readers of their own.
pub record Hosts (W : Type 0) : Type 0 where
  pub path_host : PathHost W
  pub socket_host : PathHost W
  pub service_host : ServiceHost W
  pub state_host : ServiceHost W
  pub identity_host : IdentityHost W
  pub probe : ProbeHost W

-- An error of `ValidateSemantics`, or `unsupported domain %q`.
pub data BuildError : Type 0 where
  invalid : ParseError → BuildError
  unsupported_domain : Text → BuildError

module _ {W : Type 0} (hosts : Hosts W) where
  -- The case "sockets" of the loop
  unfoldable pub socket_checks : Text → Contract → List (Check W)
  unfolding behind_namespace socket_namespace_id build_socket_checks
  socket_checks host_root cfg =
      let checks = build_socket_checks hosts.socket_host cfg.sockets in
      if text_eq host_root []
      then behind_namespace hosts.probe (codes "sockets") socket_namespace_id cfg.metadata.target
          checks
      else checks

  -- The service checks of `buildServiceBackedChecks`
  unfoldable pub service_backed_checks : Contract → Bool → Bool → List (Check W)
  unfolding build_service_checks synthesize sort_entries
  service_backed_checks cfg include_services include_identity =
      let declared = build_service_checks hosts.service_host false cfg.services in
      let states = sort_entries (synthesize include_services cfg.services cfg.identity []) in
      let synthesized = build_service_checks hosts.state_host true states in
      (if include_services then declared else [])
      ++ (if include_identity then (if is_empty states then [] else synthesized) else [])

  -- `buildServiceBackedChecks`, which has no error
  unfoldable pub build_service_backed_checks :
      Contract → Bool → Bool → List (Check W) × List (Check W)
  unfolding service_backed_checks build_identity_checks
  build_service_backed_checks cfg include_services include_identity = (
    service_backed_checks cfg include_services include_identity,
    if include_identity then build_identity_checks hosts.identity_host cfg.identity else [],
  )

  -- The loop over the domains
  unfoldable pub domain_checks :
      Text → Contract → List Text → List (Check W) → Result BuildError (List (Check W))
  unfolding path_checks socket_checks
  domain_checks host_root cfg [] checks = ok checks
  domain_checks host_root cfg (domain ∷ domains) checks =
      let next = domain_checks host_root cfg domains in
      if text_eq domain (codes "paths")
      then next (checks ++ path_checks hosts.path_host hosts.probe host_root cfg)
      else if text_eq domain (codes "sockets")
      then next (checks ++ socket_checks host_root cfg)
      else if text_eq domain (codes "identity") || text_eq domain (codes "services")
      then next checks
      else err (unsupported_domain domain)

  -- The checks of the two domains that systemd backs.
  unfoldable pub systemd_checks : Contract → List Text → List (Check W)
  unfolding behind_namespace service_namespace_id build_service_backed_checks contains
  systemd_checks cfg domains =
      let include_services = contains (codes "services") domains in
      let include_identity = contains (codes "identity") domains in
      let (services, identities) =
        build_service_backed_checks cfg include_services include_identity in
      if include_services || include_identity
      then behind_namespace hosts.probe (codes "services") service_namespace_id cfg.metadata.target
          services
        ++ identities
      else []

  -- `buildChecksForDomains`
  unfoldable pub build_checks_for_domains :
      Contract → List Text → Text → Result BuildError (List (Check W))
  unfolding validate_semantics domain_checks systemd_checks
  build_checks_for_domains cfg domains host_root = elim (validate_semantics cfg) [
    | err e ↦ err (invalid e)
    | ok _ ↦ elim (domain_checks host_root cfg domains []) [
      | err e ↦ err e
      | ok checks ↦ ok (checks ++ systemd_checks cfg domains)
    ]
  ]
