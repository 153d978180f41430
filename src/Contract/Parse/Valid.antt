-- ===== src/Contract/Parse/Valid.antt =====
-- What a contract satisfies that `ParseBytes` returns.
use savk.Base.{◌≡◌, List, [], ◌∷◌, Option, none, some, ok}
use savk.Text.{Text, text_eq, text_eq_iff, codes}
use savk.Text.Utf8.{is_valid_utf8}
use savk.Contract.Node.{at_path, invalid_utf8, inactive_service}
use savk.Contract.Schema.{ServiceSpec, IdentitySpec, Contract}
use savk.Contract.Lines.{tokenize}
use savk.Contract.Ensures.{Ensures, good, bad, then-Ensures, Ensures-ok}
use savk.Contract.Field.{DecodeResult}
use savk.Contract.Decode.{require, decode_contract}
use savk.Contract.Decode.Sound.{require-true, IfSome}
use savk.Contract.Parse.{
  lookup_spec, check_identity, check_identities, validate_semantics, parse_root, parse_bytes,
}
use savk.Contract.Decode.Valid.{AllValid, IsActive, IsValid, decode_contract-IsValid}

check_identity-IsActive :
    (services : List (Text × ServiceSpec)) (label : Text) (spec : IdentitySpec) (u : Unit {0})
    → check_identity services label spec ≡ ok u
    → IsActive services label spec
unfolding check_identity
check_identity-IsActive services label spec u h = active_of (lookup_spec services spec.service) h
  where
    active_of :
        (o : Option ServiceSpec)
        → elim o [
          | none ↦ ok tt
          | some declared ↦ require (text_eq declared.state (codes "active")) (
              at_path
                (inactive_service spec.service declared.state)
                (codes "identity" ∷ label ∷ codes "service" ∷ []))
        ]
          ≡ ok u
        → IfSome (λ (d : ServiceSpec). d.state ≡ codes "active") o
    active_of none h = tt
    active_of (some d) h =
        (text_eq_iff d.state (codes "active")).0
          (require-true (text_eq d.state (codes "active")) _ h)

check_identities-AllValid :
    (services : List (Text × ServiceSpec)) (m : List (Text × IdentitySpec))
    → Ensures (λ (u : Unit {0}). AllValid (IsActive services) m) (check_identities services m)
unfolding check_identities
check_identities-AllValid services [] = good tt tt
check_identities-AllValid services ((label, spec) ∷ m) =
    then-Ensures (check_identity services label spec) λ u here.
      with_rest (check_identity-IsActive services label spec u here) (check_identities services m)
        (check_identities-AllValid services m)
  where
    with_rest :
        IsActive services label spec
        → (r : DecodeResult (Unit {0}))
        → Ensures (λ (u : Unit {0}). AllValid (IsActive services) m) r
        → Ensures (λ (u : Unit {0}). AllValid (IsActive services) ((label, spec) ∷ m)) r
    with_rest here r (good u later) = good u (here, later)
    with_rest here r (bad e) = bad e

-- A contract that `ParseBytes` returns has the supported version, kind and target, a name, an
-- entry in some domain, and in every domain specs that satisfy the rules of that domain; an
-- identity whose service the contract declares names one that is declared active.
pub parse_bytes-IsValid :
    (upper : Text → Text) (input : Text) (c : Contract)
    → parse_bytes upper input ≡ ok c
    → IsValid c × AllValid (IsActive c.services) c.identity
unfolding parse_bytes validate_semantics
parse_bytes-IsValid upper input c =
    Ensures-ok {P = λ (c : Contract). IsValid c × AllValid (IsActive c.services) c.identity} c (
      then-Ensures (require (is_valid_utf8 input) invalid_utf8) λ _ _.
        then-Ensures (tokenize input) λ lines _. then-Ensures (parse_root lines) λ es _.
          then-Ensures (decode_contract upper es) λ d decoded.
            then-Ensures (check_identities d.services d.identity) λ u checked. good d (
              decode_contract-IsValid upper es d decoded,
              Ensures-ok u (check_identities-AllValid d.services d.identity) checked,
            ))
