-- ===== src/Contract/Decode/Valid.antt =====
-- What a contract satisfies that is decoded.
use savk.Base.{◌≡◌, true, false, not, ◌&&◌, List, [], ◌∷◌, Option, none, some, ok, ◌>>=◌, is_empty}
use savk.Text.{Text, text_eq, text_eq_iff, codes}
use savk.Contract.Node.{
  Node, Entries, lookup_entry, at_path, empty_contract, invalid_kind, unsupported_version,
  unsupported_target,
}
use savk.Contract.Schema.{Metadata, ServiceSpec, IdentitySpec, Contract}
use savk.Contract.Ensures.{Ensures, good, then-Ensures, Ensures-ok}
use savk.Contract.Field.{
  DecodeResult, below, sorted_keys, reject_unknown, expect_map, require_value, require_string_field,
  require_map_field,
}
use savk.Contract.Decode.{
  require, decode_each, decode_domain, decode_metadata, decode_service, decode_socket, decode_path,
  decode_identity, decode_contract,
}
use savk.Contract.Decode.Sound.{require-true, IfSome}
use savk.Contract.Decode.Specs.{
  is_filled, filled_value, not-true, IsValidService, IsValidSocket, IsValidPath, IsValidIdentity,
  decode_service-IsValid,
}
use savk.Contract.Decode.Specs.Paths.{decode_socket-IsValid, decode_path-IsValid}
use savk.Contract.Decode.Specs.Identities.{decode_identity-IsValid}
use savk.Contract.Parse.{lookup_spec}

-- Every entry of a domain is valid under its key.
abbrev pub AllValid : {A : Type 0} → (Text → A → Type 0) → List (Text × A) → Type 0
AllValid P [] = Unit {0}
AllValid P ((k, a) ∷ m) = P k a × AllValid P m

-- A service that an identity names and the contract declares is declared active.
abbrev pub IsActive : List (Text × ServiceSpec) → Text → IdentitySpec → Type 0
IsActive services label spec =
    IfSome (λ (d : ServiceSpec). d.state ≡ codes "active") (lookup_spec services spec.service)

pub record IsValid (c : Contract) : Type 0 where
  pub version : c.api_version ≡ codes "savk/v1"
  pub kind : c.kind ≡ codes "ApplianceContract"
  pub target : c.metadata.target ≡ codes "linux-systemd"
  pub named : is_filled c.metadata.name ≡ true
  pub some_domain :
      (is_empty c.services && is_empty c.sockets && is_empty c.paths && is_empty c.identity) ≡ false
  pub services : AllValid IsValidService c.services
  pub sockets : AllValid IsValidSocket c.sockets
  pub paths : AllValid IsValidPath c.paths
  pub identity : AllValid IsValidIdentity c.identity

decode_each-AllValid :
    {A : Type 0} (P : Text → A → Type 0) (decode : Text → Node → DecodeResult A)
    → ((k : Text) (n : Node) (a : A) → decode k n ≡ ok a → P k a)
    → (es : Entries) (ks : List Text) → Ensures (AllValid P) (decode_each decode es ks)
unfolding decode_each
decode_each-AllValid P decode valid es [] = good [] tt
decode_each-AllValid P decode valid es (k ∷ ks) =
    decode_next (lookup_entry es k) (decode_each-AllValid P decode valid es ks)
  where
    decode_next :
        (o : Option Node)
        → Ensures (AllValid P) (decode_each decode es ks)
        → Ensures (AllValid P) (elim o [
          | none ↦ decode_each decode es ks
          | some n ↦ (decode k n >>= λ a. decode_each decode es ks >>= λ rest. ok ((k, a) ∷ rest))
        ])
    decode_next none h = h
    decode_next (some n) h = then-Ensures (decode k n) λ a e.
        then-Ensures (decode_each decode es ks)
          λ rest e'. good ((k, a) ∷ rest) (valid k n a e, Ensures-ok {P = AllValid P} rest h e')

decode_domain-AllValid :
    {A : Type 0} (P : Text → A → Type 0) (decode : Text → Node → DecodeResult A)
    → ((k : Text) (n : Node) (a : A) → decode k n ≡ ok a → P k a)
    → (es : Entries) (name : Text) (m : List (Text × A)) → decode_domain es name decode ≡ ok m
    → AllValid P m
unfolding decode_domain
decode_domain-AllValid {A} P decode valid es name m h =
    Ensures-ok {P = AllValid P} m (of_node (lookup_entry es name)) h
  where
    of_node :
        (o : Option Node)
        → Ensures (AllValid P) (elim o [
          | none ↦ ok []
          | some n ↦ (expect_map n (name ∷ []) >>= λ fs. decode_each decode fs (sorted_keys fs))
        ])
    of_node none = good [] tt
    of_node (some n) =
        then-Ensures (expect_map n (name ∷ []))
          λ fs _. decode_each-AllValid P decode valid fs (sorted_keys fs)

decode_metadata-valid :
    (es : Entries) (path : List Text) (m : Metadata)
    → decode_metadata es path ≡ ok m
    → (m.target ≡ codes "linux-systemd") × (is_filled m.name ≡ true)
unfolding decode_metadata
decode_metadata-valid es path m =
    Ensures-ok
      {P = λ (m : Metadata). (m.target ≡ codes "linux-systemd") × (is_filled m.name ≡ true)} m
      (then-Ensures (reject_unknown path (codes "name" ∷ codes "target" ∷ []) (sorted_keys es))
        λ _ _. then-Ensures (require_string_field es path (codes "name")) λ name _.
          then-Ensures (require_value name (below path (codes "name"))) λ v filled.
            then-Ensures (require_string_field es path (codes "target")) λ target _.
              then-Ensures
                (require (text_eq target (codes "linux-systemd")) (unsupported_target target))
                λ u same.
                  good (record { name = name; target = target })
                    (
                      (text_eq_iff target (codes "linux-systemd")).0 (
                          require-true (text_eq target (codes "linux-systemd"))
                            (unsupported_target target) same),
                      filled_value name (below path (codes "name")) v filled,
                    ))

pub decode_contract-IsValid :
    (upper : Text → Text) (es : Entries) (c : Contract)
    → decode_contract upper es ≡ ok c
    → IsValid c
unfolding decode_contract
decode_contract-IsValid upper es c = Ensures-ok {P = IsValid} c (
    then-Ensures
      (reject_unknown []
        (codes "apiVersion"
          ∷ codes "kind"
          ∷ codes "metadata"
          ∷ codes "services"
          ∷ codes "sockets"
          ∷ codes "paths"
          ∷ codes "identity"
          ∷ [])
        (sorted_keys es))
      λ _ _. then-Ensures (require_string_field es [] (codes "apiVersion")) λ api_version _.
        then-Ensures
          (require (text_eq api_version (codes "savk/v1")) (unsupported_version api_version))
          λ u version. then-Ensures (require_string_field es [] (codes "kind")) λ kind _.
            then-Ensures
              (require (text_eq kind (codes "ApplianceContract"))
                (at_path (invalid_kind kind) (codes "kind" ∷ [])))
              λ v same_kind. then-Ensures (require_map_field es [] (codes "metadata")) λ meta _.
                then-Ensures (decode_metadata meta (codes "metadata" ∷ [])) λ metadata m.
                  then-Ensures (decode_domain es (codes "services") (decode_service upper))
                    λ services sv.
                      then-Ensures (decode_domain es (codes "sockets") decode_socket) λ sockets so.
                        then-Ensures (decode_domain es (codes "paths") decode_path) λ paths pa.
                          then-Ensures (decode_domain es (codes "identity") (decode_identity upper))
                            λ identity ids.
                              then-Ensures
                                (require
                                  (not (
                                    is_empty services
                                    && is_empty sockets
                                    && is_empty paths
                                    && is_empty identity))
                                  empty_contract)
                                λ w filled.
                                  good
                                    (record {
                                      api_version = api_version;
                                      kind = kind;
                                      metadata = metadata;
                                      services = services;
                                      sockets = sockets;
                                      paths = paths;
                                      identity = identity;
                                    })
                                    (record {
                                      version = (text_eq_iff api_version (codes "savk/v1")).0 (
                                          require-true (text_eq api_version (codes "savk/v1"))
                                            (unsupported_version api_version) version);
                                      kind = (text_eq_iff kind (codes "ApplianceContract")).0 (
                                          require-true (text_eq kind (codes "ApplianceContract"))
                                            (at_path (invalid_kind kind) (codes "kind" ∷ []))
                                            same_kind);
                                      target =
                                          (decode_metadata-valid meta (codes "metadata" ∷ [])
                                            metadata m).0;
                                      named =
                                          (decode_metadata-valid meta (codes "metadata" ∷ [])
                                            metadata m).1;
                                      some_domain =
                                          not-true
                                            (is_empty services
                                              && is_empty sockets
                                              && is_empty paths
                                              && is_empty identity)
                                            (require-true
                                              (not (
                                                is_empty services
                                                && is_empty sockets
                                                && is_empty paths
                                                && is_empty identity))
                                              empty_contract filled);
                                      services =
                                          decode_domain-AllValid IsValidService
                                            (decode_service upper) (decode_service-IsValid upper) es
                                            (codes "services") services sv;
                                      sockets =
                                          decode_domain-AllValid IsValidSocket decode_socket
                                            decode_socket-IsValid es (codes "sockets") sockets so;
                                      paths =
                                          decode_domain-AllValid IsValidPath decode_path
                                            decode_path-IsValid es (codes "paths") paths pa;
                                      identity =
                                          decode_domain-AllValid IsValidIdentity
                                            (decode_identity upper) (decode_identity-IsValid upper)
                                            es (codes "identity") identity ids;
                                    }))
