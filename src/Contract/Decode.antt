-- ===== src/Contract/Decode.antt =====
-- internal/contract/parser.go: from nodes to a contract.
pub mod Valid
pub mod Sound
pub mod Specs
use savk.Base.{
  ℕ, Bool, true, false, not, ◌&&◌, ◌||◌, List, [], ◌∷◌, ◌++◌, Option, none, some, Result, ok, err,
  ◌>>=◌, if◌then◌else◌, is_empty, is_none,
}
use savk.Base.Int.{ℤ}
use savk.Text.{Text, text_eq, codes}
use savk.Text.Space.{is_blank}
use savk.Contract.Node.{
  Node, Entries, lookup_entry, ParseError, at_path, empty_contract, unsupported_version,
  unsupported_target, invalid_kind, invalid_state, invalid_restart, invalid_mode, invalid_path_type,
  empty_name, nothing_set, no_capability_set,
}
use savk.Contract.Schema.{
  Metadata, RunAsSpec, ServiceSpec, SocketSpec, PathSpec, CapabilitySetSpec, IdentitySpec, Contract,
  valid_service_state, valid_restart_policy, valid_path_type,
}
use savk.Contract.Field.{
  DecodeResult, below, sorted_keys, reject_unknown, expect_map, expect_string, require_value,
  expect_non_empty_string, expect_non_negative_int, require_string_field, require_map_field,
  optional_field, optional_text, decode_capability_list, validate_absolute_path, is_octal_mode,
}

-- `if !ok { return err }`
abbrev pub require : Bool → ParseError → DecodeResult (Unit {0})
require test e = if test then ok tt else err e

-- The mapping of a node whose fields are all allowed.
unfoldable pub expect_fields : Node → List Text → List Text → DecodeResult Entries
expect_fields n path allowed = do
  es ← expect_map n path
  _ ← reject_unknown path allowed (sorted_keys es)
  ok es

-- A loop over `sortedKeys(node.mapEntries)`; each key has an entry.
unfoldable pub decode_each :
    {A : Type 0}
    → (Text → Node → DecodeResult A)
    → Entries
    → List Text
    → DecodeResult (List (Text × A))
decode_each decode es [] = ok []
decode_each decode es (k ∷ ks) = elim (lookup_entry es k) [
  | none ↦ decode_each decode es ks
  | some n ↦ do a ← decode k n; rest ← decode_each decode es ks; ok ((k, a) ∷ rest)
]

-- `decodeMetadata`
unfoldable pub decode_metadata : Entries → List Text → DecodeResult Metadata
decode_metadata es path = do
  _ ← reject_unknown path (codes "name" ∷ codes "target" ∷ []) (sorted_keys es)
  name ← require_string_field es path (codes "name")
  _ ← require_value name (below path (codes "name"))
  target ← require_string_field es path (codes "target")
  _ ← require (text_eq target (codes "linux-systemd")) (unsupported_target target)
  ok (record { name = name; target = target })

-- `decodeRunAs`
unfoldable pub decode_run_as : Node → List Text → DecodeResult RunAsSpec
decode_run_as n path = do
  es ← expect_fields n path (codes "user" ∷ codes "group" ∷ [])
  user ← require_string_field es path (codes "user")
  _ ← require_value user (below path (codes "user"))
  group ←
      optional_text es (codes "group") (λ g. expect_non_empty_string g (below path (codes "group")))
  ok (record { user = user; group = group })

-- A restart policy; its error is that of the service.
unfoldable pub decode_restart : List Text → Node → DecodeResult Text
decode_restart path n = do
  restart ← expect_string n (below path (codes "restart"))
  _ ← require (valid_restart_policy restart) (at_path (invalid_restart restart) path)
  ok restart

-- A mode of a socket or path.
unfoldable pub decode_mode : List Text → Node → DecodeResult Text
decode_mode path n = do
  mode ← expect_string n (below path (codes "mode"))
  _ ← require (is_octal_mode mode) (at_path (invalid_mode mode) (below path (codes "mode")))
  ok mode

-- A path type; its error is that of the path.
unfoldable pub decode_path_type : List Text → Node → DecodeResult Text
decode_path_type path n = do
  kind ← expect_string n (below path (codes "type"))
  _ ← require (valid_path_type kind) (at_path (invalid_path_type kind) path)
  ok kind

-- `isCapabilitySetSpecEmpty`
unfoldable pub is_capability_set_empty : CapabilitySetSpec → Bool
is_capability_set_empty spec =
    is_none spec.effective
    && is_none spec.permitted
    && is_none spec.inheritable
    && is_none spec.bounding
    && is_none spec.ambient

-- The body of the loop of `decodeSockets`
unfoldable pub decode_socket : Text → Node → DecodeResult SocketSpec
decode_socket name n = do
  let path = codes "sockets" ∷ name ∷ []
  _ ← validate_absolute_path name (codes "sockets" ∷ [])
  es ← expect_fields n path (codes "owner" ∷ codes "group" ∷ codes "mode" ∷ [])
  owner ←
      optional_text es (codes "owner") (λ o. expect_non_empty_string o (below path (codes "owner")))
  group ←
      optional_text es (codes "group") (λ g. expect_non_empty_string g (below path (codes "group")))
  mode ← optional_text es (codes "mode") (decode_mode path)
  ok (record { owner = owner; group = group; mode = mode })

-- The body of the loop of `decodePaths`
unfoldable pub decode_path : Text → Node → DecodeResult PathSpec
decode_path name n = do
  let path = codes "paths" ∷ name ∷ []
  _ ← validate_absolute_path name (codes "paths" ∷ [])
  es ← expect_fields n path (codes "owner" ∷ codes "group" ∷ codes "mode" ∷ codes "type" ∷ [])
  owner ←
      optional_text es (codes "owner") (λ o. expect_non_empty_string o (below path (codes "owner")))
  group ←
      optional_text es (codes "group") (λ g. expect_non_empty_string g (below path (codes "group")))
  mode ← optional_text es (codes "mode") (decode_mode path)
  kind ← optional_text es (codes "type") (decode_path_type path)
  ok (record { owner = owner; group = group; mode = mode; kind = kind })

-- A domain of the contract: none of it, if the field is missing.
unfoldable pub decode_domain :
    {A : Type 0} → Entries → Text → (Text → Node → DecodeResult A) → DecodeResult (List (Text × A))
decode_domain es name decode = elim (lookup_entry es name) [
  | none ↦ ok []
  | some n ↦ (expect_map n (name ∷ []) >>= λ fs. decode_each decode fs (sorted_keys fs))
]

module _ (upper : Text → Text) where
  -- The body of the loop of `decodeServices`
  unfoldable pub decode_service : Text → Node → DecodeResult ServiceSpec
  decode_service name n =
      let path = codes "services" ∷ name ∷ [] in
      if is_blank name then err (at_path empty_name (codes "services" ∷ [])) else do
        es ←
            expect_fields n path
              (codes "state" ∷ codes "run_as" ∷ codes "restart" ∷ codes "capabilities" ∷ [])
        state ← require_string_field es path (codes "state")
        _ ← require (valid_service_state state) (at_path (invalid_state state) path)
        run_as ←
            optional_field es (codes "run_as") (λ r. decode_run_as r (below path (codes "run_as")))
        restart ← optional_field es (codes "restart") (decode_restart path)
        capabilities ←
            optional_field es (codes "capabilities")
              (λ c. decode_capability_list upper c (below path (codes "capabilities")))
        ok (record {
          state = state;
          run_as = run_as;
          restart = restart;
          capabilities = capabilities;
        })

  -- `decodeCapabilitySetSpec`
  unfoldable pub decode_capability_set : Node → List Text → DecodeResult CapabilitySetSpec
  decode_capability_set n path =
      let sets : Entries → Text → DecodeResult (Option (List Text)) =
        λ es name. optional_field es name (λ c. decode_capability_list upper c (below path name)) in
      do
        es ← expect_fields n path (
            codes "effective"
            ∷ codes "permitted"
            ∷ codes "inheritable"
            ∷ codes "bounding"
            ∷ codes "ambient"
            ∷ [])
        effective ← sets es (codes "effective")
        permitted ← sets es (codes "permitted")
        inheritable ← sets es (codes "inheritable")
        bounding ← sets es (codes "bounding")
        ambient ← sets es (codes "ambient")
        let spec : CapabilitySetSpec = record {
          effective = effective;
          permitted = permitted;
          inheritable = inheritable;
          bounding = bounding;
          ambient = ambient;
        }
        _ ← require (not (is_capability_set_empty spec)) (at_path no_capability_set path)
        ok spec

  -- The body of the loop of `decodeIdentity`
  unfoldable pub decode_identity : Text → Node → DecodeResult IdentitySpec
  decode_identity name n =
      let path = codes "identity" ∷ name ∷ [] in
      if is_blank name then err (at_path empty_name (codes "identity" ∷ [])) else do
        es ←
            expect_fields n path
              (codes "service" ∷ codes "uid" ∷ codes "gid" ∷ codes "capabilities" ∷ [])
        service ← require_string_field es path (codes "service")
        _ ← require_value service (below path (codes "service"))
        uid ←
            optional_field es (codes "uid")
              (λ u. expect_non_negative_int u (below path (codes "uid")))
        gid ←
            optional_field es (codes "gid")
              (λ g. expect_non_negative_int g (below path (codes "gid")))
        capabilities ←
            optional_field es (codes "capabilities")
              (λ c. decode_capability_set c (below path (codes "capabilities")))
        _ ←
            require (not (is_none uid && is_none gid && is_none capabilities))
              (at_path nothing_set path)
        ok (record { service = service; uid = uid; gid = gid; capabilities = capabilities })

  -- `decodeContract`
  unfoldable pub decode_contract : Entries → DecodeResult Contract
  decode_contract es = do
    _ ←
        reject_unknown []
          (codes "apiVersion"
            ∷ codes "kind"
            ∷ codes "metadata"
            ∷ codes "services"
            ∷ codes "sockets"
            ∷ codes "paths"
            ∷ codes "identity"
            ∷ [])
          (sorted_keys es)
    api_version ← require_string_field es [] (codes "apiVersion")
    _ ← require (text_eq api_version (codes "savk/v1")) (unsupported_version api_version)
    kind ← require_string_field es [] (codes "kind")
    _ ←
        require (text_eq kind (codes "ApplianceContract"))
          (at_path (invalid_kind kind) (codes "kind" ∷ []))
    meta ← require_map_field es [] (codes "metadata")
    metadata ← decode_metadata meta (codes "metadata" ∷ [])
    services ← decode_domain es (codes "services") decode_service
    sockets ← decode_domain es (codes "sockets") decode_socket
    paths ← decode_domain es (codes "paths") decode_path
    identity ← decode_domain es (codes "identity") decode_identity
    _ ←
        require (not (is_empty services && is_empty sockets && is_empty paths && is_empty identity))
          empty_contract
    ok (record {
      api_version = api_version;
      kind = kind;
      metadata = metadata;
      services = services;
      sockets = sockets;
      paths = paths;
      identity = identity;
    })
