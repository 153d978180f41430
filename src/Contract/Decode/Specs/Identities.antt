-- ===== src/Contract/Decode/Specs/Identities.antt =====
-- internal/contract/parser.go: the identities of a decoded contract.
use savk.Base.{◌≡◌, not, ◌&&◌, List, [], ◌∷◌, Option, inl, inr, ok, is_none, arith, Bool-cases}
use savk.Base.Int.{ℤ, pos, negsuc}
use savk.Text.{Text, codes}
use savk.Text.Space.{is_blank}
use savk.Contract.Node.{
  Node, Entries, mapping, list, string, int, bool, at_path, no_capability_set, nothing_set,
}
use savk.Contract.Schema.{CapabilitySetSpec, IdentitySpec}
use savk.Contract.Field.{
  DecodeResult, below, require_value, require_string_field, expect_non_negative_int, optional_field,
  decode_capability_list,
}
use savk.Contract.Decode.{
  require, expect_fields, decode_capability_set, decode_identity, is_capability_set_empty,
}
use savk.Contract.Ensures.{good, then-Ensures, Ensures-ok}
use savk.Contract.Decode.Sound.{require-true, optional_field-IfSome}
use savk.Contract.Decode.Specs.{
  IsValidCapabilitySet, IsNatural, IsValidIdentity, not-true, filled_value, optional_canonical,
}

decode_capability_set-IsValid :
    (upper : Text → Text) (n : Node) (path : List Text) (s : CapabilitySetSpec)
    → decode_capability_set upper n path ≡ ok s
    → IsValidCapabilitySet s
unfolding decode_capability_set
decode_capability_set-IsValid upper n path s =
    let sets : Entries → Text → DecodeResult (Option (List Text)) =
      λ es name. optional_field es name (λ c. decode_capability_list upper c (below path name)) in
    Ensures-ok {P = IsValidCapabilitySet} s (
      then-Ensures
        (expect_fields n path (
          codes "effective"
          ∷ codes "permitted"
          ∷ codes "inheritable"
          ∷ codes "bounding"
          ∷ codes "ambient"
          ∷ []))
        λ es _. then-Ensures (sets es (codes "effective")) λ effective e.
          then-Ensures (sets es (codes "permitted")) λ permitted p.
            then-Ensures (sets es (codes "inheritable")) λ inheritable i.
              then-Ensures (sets es (codes "bounding")) λ bounding b.
                then-Ensures (sets es (codes "ambient")) λ ambient a.
                  let spec : CapabilitySetSpec = record {
                    effective = effective;
                    permitted = permitted;
                    inheritable = inheritable;
                    bounding = bounding;
                    ambient = ambient;
                  } in
                  then-Ensures
                    (require (not (is_capability_set_empty spec)) (at_path no_capability_set path))
                    λ u some_set. good spec (record {
                      some_set = not-true (is_capability_set_empty spec) (
                          require-true (not (is_capability_set_empty spec))
                            (at_path no_capability_set path) some_set);
                      effective =
                          optional_canonical upper es (codes "effective")
                            (below path (codes "effective")) effective e;
                      permitted =
                          optional_canonical upper es (codes "permitted")
                            (below path (codes "permitted")) permitted p;
                      inheritable =
                          optional_canonical upper es (codes "inheritable")
                            (below path (codes "inheritable")) inheritable i;
                      bounding =
                          optional_canonical upper es (codes "bounding")
                            (below path (codes "bounding")) bounding b;
                      ambient =
                          optional_canonical upper es (codes "ambient")
                            (below path (codes "ambient")) ambient a;
                    }))

non_negative-IsNatural :
    (path : List Text) (n : Node) (i : ℤ) → expect_non_negative_int n path ≡ ok i → IsNatural i
unfolding expect_non_negative_int
non_negative-IsNatural path (int _ (pos k)) i h = let same : pos k ≡ i = cc in rw (← same) tt
non_negative-IsNatural path (int _ (negsuc k)) i h = absurd (cc)
non_negative-IsNatural path (mapping _ _) i h = absurd (cc)
non_negative-IsNatural path (list _ _) i h = absurd (cc)
non_negative-IsNatural path (string _ _) i h = absurd (cc)
non_negative-IsNatural path (bool _ _) i h = absurd (cc)

pub decode_identity-IsValid :
    (upper : Text → Text) (name : Text) (n : Node) (s : IdentitySpec)
    → decode_identity upper name n ≡ ok s
    → IsValidIdentity name s
unfolding decode_identity
decode_identity-IsValid upper name n s h = elim (Bool-cases (is_blank name)) [
  | inl blank ↦ absurd (ground arith)
  | inr named ↦
      let path : List Text = codes "identity" ∷ name ∷ [] in
      let number : Entries → Text → DecodeResult (Option ℤ) =
        λ es field. optional_field es field (λ u. expect_non_negative_int u (below path field)) in
      Ensures-ok {P = IsValidIdentity name} s
        (then-Ensures
          (expect_fields n path
            (codes "service" ∷ codes "uid" ∷ codes "gid" ∷ codes "capabilities" ∷ []))
          λ es _. then-Ensures (require_string_field es path (codes "service")) λ service _.
            then-Ensures (require_value service (below path (codes "service"))) λ v filled.
              then-Ensures (number es (codes "uid")) λ uid u.
                then-Ensures (number es (codes "gid")) λ gid g.
                  then-Ensures
                    (optional_field es (codes "capabilities")
                      (λ c. decode_capability_set upper c (below path (codes "capabilities"))))
                    λ capabilities c.
                      then-Ensures
                        (require (not (is_none uid && is_none gid && is_none capabilities))
                          (at_path nothing_set path))
                        λ w something.
                          good
                            (record {
                              service = service;
                              uid = uid;
                              gid = gid;
                              capabilities = capabilities;
                            })
                            (record {
                              named = rw named;
                              service =
                                  filled_value service (below path (codes "service")) v filled;
                              something =
                                  not-true (is_none uid && is_none gid && is_none capabilities) (
                                    require-true
                                      (not (is_none uid && is_none gid && is_none capabilities))
                                      (at_path nothing_set path) something);
                              uid =
                                  optional_field-IfSome IsNatural es (codes "uid")
                                    (λ u. expect_non_negative_int u (below path (codes "uid"))) uid
                                    (non_negative-IsNatural (below path (codes "uid"))) u;
                              gid =
                                  optional_field-IfSome IsNatural es (codes "gid")
                                    (λ u. expect_non_negative_int u (below path (codes "gid"))) gid
                                    (non_negative-IsNatural (below path (codes "gid"))) g;
                              capabilities =
                                  optional_field-IfSome IsValidCapabilitySet es
                                    (codes "capabilities")
                                    (λ c.
                                      decode_capability_set upper c
                                        (below path (codes "capabilities")))
                                    capabilities
                                    (λ m a e.
                                      decode_capability_set-IsValid upper m
                                        (below path (codes "capabilities")) a e)
                                    c;
                            }))
        (rw named at h)
]
