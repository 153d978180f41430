-- ===== src/Contract/Decode/Specs.antt =====
-- What the specs of a decoded contract satisfy, domain by domain.
pub mod Paths
pub mod Identities
use savk.Base.{
  ◌≡◌, Bool, true, false, not, ◌&&◌, List, [], ◌∷◌, Option, inl, inr, ok, every, is_none, arith,
  Bool-cases,
}
use savk.Base.Int.{ℤ, pos, negsuc}
use savk.Text.{Text, codes}
use savk.Text.Space.{is_blank}
use savk.Text.Ops.{has_prefix}
use savk.Capabilities.{is_canonical}
use savk.Contract.Node.{
  Node, Entries, mapping, list, string, int, bool, at_path, invalid_state, no_capability_set,
  nothing_set,
}
use savk.Contract.Schema.{
  RunAsSpec, ServiceSpec, SocketSpec, PathSpec, CapabilitySetSpec, IdentitySpec,
  valid_service_state, valid_restart_policy, valid_path_type,
}
use savk.Contract.Field.{
  DecodeResult, below, require_value, require_string_field, expect_non_empty_string,
  expect_non_negative_int, optional_field, optional_text, decode_capability_list,
  validate_absolute_path, is_octal_mode,
}
use savk.Contract.Decode.{
  require, expect_fields, decode_restart, decode_mode, decode_path_type, decode_run_as,
  decode_service, decode_socket, decode_path, decode_capability_set, decode_identity,
  is_capability_set_empty,
}
use savk.Contract.Ensures.{good, then-Ensures, Ensures-ok}
use savk.Contract.Decode.Sound.{
  require-true, require_value-ok, non_empty-ok, decode_mode-ok, decode_restart-ok,
  decode_path_type-ok, decode_capability_list-ok, IfSome, IfSet, optional_field-IfSome,
  optional_text-IfSet,
}

abbrev pub is_filled : Text → Bool
is_filled s = not (is_blank s)

pub record IsValidRunAs (r : RunAsSpec) : Type 0 where
  pub user : is_filled r.user ≡ true
  pub group : IfSet is_filled r.group

pub record IsValidService (name : Text) (s : ServiceSpec) : Type 0 where
  pub named : is_filled name ≡ true
  pub state : valid_service_state s.state ≡ true
  pub run_as : IfSome IsValidRunAs s.run_as
  pub restart : IfSome (λ r. valid_restart_policy r ≡ true) s.restart
  pub capabilities : IfSome (λ cs. every is_canonical cs ≡ true) s.capabilities

pub record IsValidSocket (name : Text) (s : SocketSpec) : Type 0 where
  pub absolute : has_prefix name (codes "/") ≡ true
  pub owner : IfSet is_filled s.owner
  pub group : IfSet is_filled s.group
  pub mode : IfSet is_octal_mode s.mode

pub record IsValidPath (name : Text) (s : PathSpec) : Type 0 where
  pub absolute : has_prefix name (codes "/") ≡ true
  pub owner : IfSet is_filled s.owner
  pub group : IfSet is_filled s.group
  pub mode : IfSet is_octal_mode s.mode
  pub kind : IfSet valid_path_type s.kind

abbrev AreCanonical : Option (List Text) → Type 0
AreCanonical = IfSome (λ cs. every is_canonical cs ≡ true)

pub record IsValidCapabilitySet (s : CapabilitySetSpec) : Type 0 where
  pub some_set : is_capability_set_empty s ≡ false
  pub effective : AreCanonical s.effective
  pub permitted : AreCanonical s.permitted
  pub inheritable : AreCanonical s.inheritable
  pub bounding : AreCanonical s.bounding
  pub ambient : AreCanonical s.ambient

abbrev pub IsNatural : ℤ → Type 0
IsNatural (pos n) = Unit
IsNatural (negsuc n) = ⊥

pub record IsValidIdentity (name : Text) (s : IdentitySpec) : Type 0 where
  pub named : is_filled name ≡ true
  pub service : is_filled s.service ≡ true
  pub something : (is_none s.uid && is_none s.gid && is_none s.capabilities) ≡ false
  pub uid : IfSome IsNatural s.uid
  pub gid : IfSome IsNatural s.gid
  pub capabilities : IfSome IsValidCapabilitySet s.capabilities

pub not-true : (b : Bool) → not b ≡ true → b ≡ false
not-true b h = ground arith

filled_text :
    (path : List Text) (n : Node) (t : Text)
    → expect_non_empty_string n path ≡ ok t
    → is_filled t ≡ true
filled_text path n t h = ground (arith, non_empty-ok n path t h)

pub filled_value :
    (s : Text) (path : List Text) (v : Text) → require_value s path ≡ ok v → is_filled s ≡ true
filled_value s path v h = ground (arith, require_value-ok s path v h)

pub optional_filled :
    (es : Entries) (name : Text) (path : List Text) (t : Text)
    → optional_text es name (λ n. expect_non_empty_string n path) ≡ ok t
    → IfSet is_filled t
optional_filled es name path t =
    optional_text-IfSet is_filled es name (λ n. expect_non_empty_string n path) t
      (λ n s e. filled_text path n s e)

pub optional_canonical :
    (upper : Text → Text) (es : Entries) (name : Text) (path : List Text) (o : Option (List Text))
    → optional_field es name (λ c. decode_capability_list upper c path) ≡ ok o
    → AreCanonical o
optional_canonical upper es name path o =
    optional_field-IfSome (λ cs. every is_canonical cs ≡ true) es name
      (λ c. decode_capability_list upper c path) o
      (λ n vs e. decode_capability_list-ok upper n path vs e)

decode_run_as-IsValid :
    (n : Node) (path : List Text) (r : RunAsSpec) → decode_run_as n path ≡ ok r → IsValidRunAs r
unfolding decode_run_as
decode_run_as-IsValid n path r = Ensures-ok {P = IsValidRunAs} r (
    then-Ensures (expect_fields n path (codes "user" ∷ codes "group" ∷ [])) λ es _.
      then-Ensures (require_string_field es path (codes "user")) λ user _.
        then-Ensures (require_value user (below path (codes "user"))) λ v filled.
          then-Ensures
            (optional_text es (codes "group")
              (λ g. expect_non_empty_string g (below path (codes "group"))))
            λ group g.
              good (record { user = user; group = group })
                (record {
                  user = filled_value user (below path (codes "user")) v filled;
                  group = optional_filled es (codes "group") (below path (codes "group")) group g;
                }))

pub decode_service-IsValid :
    (upper : Text → Text) (name : Text) (n : Node) (s : ServiceSpec)
    → decode_service upper name n ≡ ok s
    → IsValidService name s
unfolding decode_service
decode_service-IsValid upper name n s h = elim (Bool-cases (is_blank name)) [
  | inl blank ↦ absurd (ground arith)
  | inr named ↦
      let path : List Text = codes "services" ∷ name ∷ [] in
      Ensures-ok {P = IsValidService name} s
        (then-Ensures
          (expect_fields n path
            (codes "state" ∷ codes "run_as" ∷ codes "restart" ∷ codes "capabilities" ∷ []))
          λ es _. then-Ensures (require_string_field es path (codes "state")) λ state _.
            then-Ensures (require (valid_service_state state) (at_path (invalid_state state) path))
              λ u valid.
                then-Ensures
                  (optional_field es (codes "run_as")
                    (λ r. decode_run_as r (below path (codes "run_as"))))
                  λ run_as r.
                    then-Ensures (optional_field es (codes "restart") (decode_restart path))
                      λ restart p.
                        then-Ensures
                          (optional_field es (codes "capabilities") (λ c.
                            decode_capability_list upper c (below path (codes "capabilities"))))
                          λ capabilities c.
                            good
                              (record {
                                state = state;
                                run_as = run_as;
                                restart = restart;
                                capabilities = capabilities;
                              })
                              (record {
                                named = rw named;
                                state =
                                    require-true (valid_service_state state)
                                      (at_path (invalid_state state) path) valid;
                                run_as =
                                    optional_field-IfSome IsValidRunAs es (codes "run_as")
                                      (λ r. decode_run_as r (below path (codes "run_as"))) run_as
                                      (λ m a e.
                                        decode_run_as-IsValid m (below path (codes "run_as")) a e)
                                      r;
                                restart =
                                    optional_field-IfSome (λ r. valid_restart_policy r ≡ true) es
                                      (codes "restart") (decode_restart path) restart
                                      (decode_restart-ok path) p;
                                capabilities =
                                    optional_canonical upper es (codes "capabilities")
                                      (below path (codes "capabilities")) capabilities c;
                              }))
        (rw named at h)
]
