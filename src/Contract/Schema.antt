-- ===== src/Contract/Schema.antt =====
-- internal/contract/schema.go: contracts. A Go map is the list of its entries by sorted key, and
-- a string field that is not set is empty.
use savk.Base.{[], ◌∷◌, Bool, ◌||◌, List, Option}
use savk.Base.Int.{ℤ}
use savk.Text.{Text, text_eq, codes}

pub record Metadata : Type 0 where
  pub name : Text
  pub target : Text

pub record RunAsSpec : Type 0 where
  pub user : Text
  pub group : Text

pub record ServiceSpec : Type 0 where
  pub state : Text
  pub run_as : Option RunAsSpec
  pub restart : Option Text
  pub capabilities : Option (List Text)

pub record SocketSpec : Type 0 where
  pub owner : Text
  pub group : Text
  pub mode : Text

pub record PathSpec : Type 0 where
  pub owner : Text
  pub group : Text
  pub mode : Text
  pub kind : Text

pub record CapabilitySetSpec : Type 0 where
  pub effective : Option (List Text)
  pub permitted : Option (List Text)
  pub inheritable : Option (List Text)
  pub bounding : Option (List Text)
  pub ambient : Option (List Text)

pub record IdentitySpec : Type 0 where
  pub service : Text
  pub uid : Option ℤ
  pub gid : Option ℤ
  pub capabilities : Option CapabilitySetSpec

pub record Contract : Type 0 where
  pub api_version : Text
  pub kind : Text
  pub metadata : Metadata
  pub services : List (Text × ServiceSpec)
  pub sockets : List (Text × SocketSpec)
  pub paths : List (Text × PathSpec)
  pub identity : List (Text × IdentitySpec)

-- `ValidServiceState`
unfoldable pub valid_service_state : Text → Bool
valid_service_state s =
    text_eq s (codes "active") || text_eq s (codes "inactive") || text_eq s (codes "failed")

-- `ValidRestartPolicy`
unfoldable pub valid_restart_policy : Text → Bool
valid_restart_policy s =
    text_eq s (codes "always") || text_eq s (codes "on-failure") || text_eq s (codes "no")

-- `ValidPathType`
unfoldable pub valid_path_type : Text → Bool
valid_path_type s = text_eq s (codes "file") || text_eq s (codes "directory")

-- The keys of a map.
abbrev pub keys {ℓ} : {A : Type ℓ} → List (Text × A) → List Text
keys [] = []
keys ((k, a) ∷ m) = k ∷ keys m
