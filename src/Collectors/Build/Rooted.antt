-- ===== src/Collectors/Build/Rooted.antt =====
-- internal/collectors: collectors of which every entry gets a check of one kind that its other checks
-- wait on: that a path or a socket exists, or the state of a service.
use savk.Base.{ℕ, ◌≡◌, true, false, not, List, [], ◌∷◌, every, All, arith}
use savk.Text.{Text, text_eq}
use savk.Text.Order.{contains}
use savk.Text.Distinct.{IsDistinct}
use savk.Contract.Schema.{keys}
use savk.Engine.{Check}
use savk.Engine.Closed.{names}
use savk.Engine.Known.{every-of_contains}
use savk.Engine.Ordered.{IsOrdered, is_ranked}
use savk.Collectors.Naming.{Naming, ident}
use savk.Collectors.Build.{build}
use savk.Collectors.Build.Named.{
  Family, has_kind, contains-build-true, every-build, build-IsDistinct, build-ranked,
  contains-false,
}

-- Every spec gets the kind `root`, and the checks of an entry wait on nothing but that check.
pub record Rooted {K S W : Type 0} (naming : Naming K) (block : Text → S → List (Check W))
    (rank : Text → ℕ) : Type 0 where
  pub family : Family naming block
  pub root : K
  pub rooted : (s : S) → has_kind naming.same root (family.kinds s) ≡ true
  pub named : (p : Text) (k : K) → text_eq [] (ident naming p k) ≡ false
  pub ranked :
      (known : List Text) (p : Text) (s : S)
      → contains (ident naming p root) known ≡ true
      → every (is_ranked known rank) (block p s) ≡ true

module _ {K S W : Type 0} (naming : Naming K) (block : Text → S → List (Check W)) (rank : Text → ℕ)
    (r : Rooted naming block rank) where
  blocks-ranked :
      (known : List Text) (entries : List (Text × S))
      → every (λ p. contains (ident naming p r.root) known) (keys entries) ≡ true
      → All (λ e. every (is_ranked known rank) (block e.0 e.1) ≡ true) entries
  blocks-ranked known [] h = tt
  blocks-ranked known ((p, s) ∷ entries) h =
      (r.ranked known p s (ground arith), blocks-ranked known entries (ground arith))

  pub build-IsOrdered :
      (entries : List (Text × S)) → IsDistinct (keys entries) → IsOrdered rank (build block entries)
  build-IsOrdered entries d =
      let known = names (build block entries) in
      record {
        distinct = build-IsDistinct naming block r.family entries d;
        named = contains-false [] known (
            every-build naming block r.family (λ id. not (text_eq [] id)) entries
              (λ p k. ground (arith, r.named p k)));
        ranked = build-ranked naming block r.family known rank entries (
            blocks-ranked known entries (
              every-of_contains (λ p. contains (ident naming p r.root) known) (keys entries)
                (λ p h. contains-build-true naming block r.family p r.root entries r.rooted h)));
      }
