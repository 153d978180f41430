-- ===== src/Collectors/Naming.antt =====
-- IDs of checks: a prefix for the collector, a name, and a suffix for the kind, which can be told
-- apart from its end.
use mathlib.Core.List.{reverse-append, reverse-reverse}
use savk.Base.{
  ◌≡◌, ◌↔◌, refl, sym, ◌∙◌, ap, Bool, true, false, ◌&&◌, [], ◌∷◌, ◌++◌, reverse, ◌==◌,
  if◌then◌else◌, arith, inl, inr, Bool-cases,
}
use savk.Text.{Text, text_eq, text_eq_iff}
use savk.Text.Ops.{has_prefix}

-- Two texts differ within the length of both.
unfoldable pub differ : Text → Text → Bool
differ [] y = false
differ (a ∷ x) [] = false
differ (a ∷ x) (b ∷ y) = if a == b then differ x y else true

differ-append : (x y u v : Text) → differ x y ≡ true → text_eq (x ++ u) (y ++ v) ≡ false
unfolding differ text_eq
differ-append [] y u v h = cc
differ-append (a ∷ x) [] u v h = cc
differ-append (a ∷ x) (b ∷ y) u v h = ground (arith, differ-append x y u v)

text_eq-append : (x u v : Text) → text_eq (x ++ u) (x ++ v) ≡ text_eq u v
unfolding text_eq
text_eq-append [] u v = refl
text_eq-append (a ∷ x) u v = ground (arith, text_eq-append x u v)

text_eq-reverse : (x y : Text) → text_eq (reverse x) (reverse y) ≡ text_eq x y
text_eq-reverse x y = ground (
  arith,
  text_eq_iff x y,
  text_eq_iff (reverse x) (reverse y),
  (λ (e : reverse x ≡ reverse y). sym (reverse-reverse x) ∙ ap reverse e ∙ reverse-reverse y),
  (λ (e : x ≡ y). ap reverse e),
)

-- Texts with suffixes that differ from the end.
text_eq-suffixes :
    (p q s t : Text) → differ (reverse s) (reverse t) ≡ true → text_eq (p ++ s) (q ++ t) ≡ false
text_eq-suffixes p q s t h =
    sym (text_eq-reverse (p ++ s) (q ++ t))
    ∙ rw (reverse-append p s, reverse-append q t)
        (differ-append (reverse s) (reverse t) (reverse p) (reverse q) h)

text_eq-suffix : (p q s : Text) → text_eq (p ++ s) (q ++ s) ≡ text_eq p q
text_eq-suffix p q s =
    sym (text_eq-reverse (p ++ s) (q ++ s))
    ∙ rw (reverse-append p s, reverse-append q s)
        (text_eq-append (reverse s) (reverse p) (reverse q))
    ∙ text_eq-reverse p q

-- IDs with another suffix, such as that of the check of the namespace.
pub text_eq-other :
    (prefix p q s t : Text)
    → differ (reverse s) (reverse t) ≡ true
    → text_eq (prefix ++ (p ++ s)) (prefix ++ (q ++ t)) ≡ false
text_eq-other prefix p q s t h =
    text_eq-append prefix (p ++ s) (q ++ t) ∙ text_eq-suffixes p q s t h

-- Texts with prefixes that differ.
pub has_prefix-differ :
    (x y p q : Text)
    → differ p q ≡ true
    → has_prefix x p ≡ true
    → has_prefix y q ≡ true
    → text_eq x y ≡ false
unfolding differ has_prefix text_eq
has_prefix-differ x y [] q h hx hy = cc
has_prefix-differ x y (a ∷ p) [] h hx hy = cc
has_prefix-differ [] y (a ∷ p) (b ∷ q) h hx hy = cc
has_prefix-differ (c ∷ x) [] (a ∷ p) (b ∷ q) h hx hy = cc
has_prefix-differ (c ∷ x) (d ∷ y) (a ∷ p) (b ∷ q) h hx hy =
    ground (arith, has_prefix-differ x y p q)

pub has_prefix-append : (p x : Text) → has_prefix (p ++ x) p ≡ true
unfolding has_prefix
has_prefix-append [] x = refl
has_prefix-append (a ∷ p) x = ground (arith, has_prefix-append p x)

-- The kinds of a collector, by the suffixes of their IDs.
pub record Naming (K : Type 0) : Type 0 where
  pub prefix : Text
  pub suffix : K → Text
  pub same : K → K → Bool
  pub same_iff : (k l : K) → (same k l ≡ true) ↔ (k ≡ l)
  pub apart : (k l : K) → same k l ≡ false → differ (reverse (suffix k)) (reverse (suffix l)) ≡ true

module _ {K : Type 0} (naming : Naming K) where
  unfoldable pub ident : Text → K → Text
  ident p k = naming.prefix ++ (p ++ naming.suffix k)

  pub text_eq-ident :
      (p q : Text) (k l : K) → text_eq (ident p k) (ident q l) ≡ (text_eq p q && naming.same k l)
  unfolding ident
  text_eq-ident p q k l =
      text_eq-append naming.prefix (p ++ naming.suffix k) (q ++ naming.suffix l)
      ∙ (elim (Bool-cases (naming.same k l)) [
        | inl same ↦
            rw ((naming.same_iff k l).0 same)
              (ground (arith, text_eq-suffix p q (naming.suffix l), (naming.same_iff l l).1 refl))
        | inr other ↦ ground (
          arith,
          text_eq-suffixes p q (naming.suffix k) (naming.suffix l) (naming.apart k l other),
        )
      ])

  -- An ID from its end.
  pub reverse-ident :
      (p : Text) (k : K)
      → reverse (ident p k) ≡ (reverse (naming.suffix k) ++ reverse p) ++ reverse naming.prefix
  unfolding ident
  reverse-ident p k =
      reverse-append naming.prefix (p ++ naming.suffix k)
      ∙ ap (◌++ reverse naming.prefix) (reverse-append p (naming.suffix k))
