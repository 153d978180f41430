-- ===== src/Collectors/Build/Named.antt =====
-- internal/collectors: the IDs of the checks that a loop over keys makes.
use savk.Base.{
  ◌≡◌, refl, ◌∙◌, Bool, true, false, not, ◌&&◌, ◌||◌, List, [], ◌∷◌, map, every, All, ℕ, arith,
}
use savk.Text.{Text, text_eq}
use savk.Text.Order.{contains}
use savk.Text.Distinct.{IsDistinct, IsDistinct-append}
use savk.Contract.Schema.{keys}
use savk.Engine.{Check}
use savk.Engine.Closed.{names}
use savk.Engine.Ordered.{is_ranked, names-append, contains-names-append, every-append}
use savk.Collectors.Naming.{Naming, ident, text_eq-ident, differ, has_prefix-differ}
use savk.Text.Ops.{has_prefix}
use savk.Collectors.Build.{build}

unfoldable pub has_kind : {K : Type 0} → (K → K → Bool) → K → List K → Bool
has_kind same k [] = false
has_kind same k (l ∷ ks) = same k l || has_kind same k ks

-- No kind comes twice.
unfoldable pub are_distinct : {K : Type 0} → (K → K → Bool) → List K → Bool
unfolding has_kind
are_distinct same [] = true
are_distinct same (k ∷ ks) = not (has_kind same k ks) && are_distinct same ks

-- The checks of one entry have the kinds that its spec asks for, each once.
pub record Family {K S W : Type 0} (naming : Naming K) (block : Text → S → List (Check W))
    : Type 0 where
  pub kinds : S → List K
  pub names_block : (p : Text) (s : S) → names (block p s) ≡ map (ident naming p) (kinds s)
  pub kinds_distinct : (s : S) → are_distinct naming.same (kinds s) ≡ true

module _ {K : Type 0} (naming : Naming K) where
  contains-map :
      (p q : Text) (k : K) (ks : List K)
      → contains (ident naming p k) (map (ident naming q) ks)
        ≡ (text_eq p q && has_kind naming.same k ks)
  unfolding contains has_kind
  contains-map p q k [] = ground arith
  contains-map p q k (l ∷ ks) = ground (arith, contains-map p q k ks, text_eq-ident naming p q k l)

  map-IsDistinct :
      (p : Text) (ks : List K)
      → are_distinct naming.same ks ≡ true
      → IsDistinct (map (ident naming p) ks)
  unfolding are_distinct
  map-IsDistinct p [] h = tt
  map-IsDistinct p (k ∷ ks) h =
      (contains-map p p k ks ∙ ground arith, map-IsDistinct p ks (ground arith))

  every-map-name :
      (q : Text → Bool) (p : Text) (ks : List K)
      → ((k : K) → q (ident naming p k) ≡ true)
      → every q (map (ident naming p) ks) ≡ true
  every-map-name q p [] h = refl
  every-map-name q p (k ∷ ks) h = ground (arith, h k, every-map-name q p ks h)

module _ {K S W : Type 0} (naming : Naming K) (block : Text → S → List (Check W))
    (family : Family naming block) where
  contains-block :
      (p q : Text) (k : K) (s : S)
      → contains (ident naming p k) (names (block q s))
        ≡ (text_eq p q && has_kind naming.same k (family.kinds s))
  contains-block p q k s = rw family.names_block (contains-map naming p q k (family.kinds s))

  -- No check has the ID of a name that is no key.
  pub contains-build-false :
      (p : Text) (k : K) (entries : List (Text × S))
      → contains p (keys entries) ≡ false
      → contains (ident naming p k) (names (build block entries)) ≡ false
  unfolding build contains
  contains-build-false p k [] h = refl
  contains-build-false p k ((q, s) ∷ entries) h =
      contains-names-append (ident naming p k) (block q s) (build block entries)
      ∙ ground (arith, contains-block p q k s, contains-build-false p k entries)

  -- A kind that every spec gets is there for every key.
  pub contains-build-true :
      (p : Text) (k : K) (entries : List (Text × S))
      → ((s : S) → has_kind naming.same k (family.kinds s) ≡ true)
      → contains p (keys entries) ≡ true
      → contains (ident naming p k) (names (build block entries)) ≡ true
  unfolding build contains
  contains-build-true p k [] always h = cc
  contains-build-true p k ((q, s) ∷ entries) always h =
      contains-names-append (ident naming p k) (block q s) (build block entries)
      ∙ ground (arith, contains-block p q k s, always s, contains-build-true p k entries always)

  -- What holds of every ID of the collector.
  pub every-build :
      (q : Text → Bool) (entries : List (Text × S))
      → ((p : Text) (k : K) → q (ident naming p k) ≡ true)
      → every q (names (build block entries)) ≡ true
  unfolding build
  every-build q [] h = refl
  every-build q ((p, s) ∷ entries) h = rw names-append (
      every-append q (names (block p s)) (names (build block entries))
      ∙ rw family.names_block (
          ground
            (arith, every-map-name naming q p (family.kinds s) (h p), every-build q entries h)))

  -- What holds of the IDs of all names that are keys.
  pub every-build-keys :
      (is_key q : Text → Bool) (entries : List (Text × S))
      → every is_key (keys entries) ≡ true
      → ((p : Text) (k : K) → is_key p ≡ true → q (ident naming p k) ≡ true)
      → every q (names (build block entries)) ≡ true
  unfolding build
  every-build-keys is_key q [] e h = refl
  every-build-keys is_key q ((p, s) ∷ entries) e h = rw names-append (
      every-append q (names (block p s)) (names (build block entries))
      ∙ rw family.names_block (
          ground (
            arith,
            every-map-name naming q p (family.kinds s) (λ k. h p k (ground arith)),
            every-build-keys is_key q entries (ground arith) h,
          )))

  every-not-contains :
      (p : Text) (ks : List K) (entries : List (Text × S))
      → contains p (keys entries) ≡ false
      → every (λ x. not (contains x (names (build block entries)))) (map (ident naming p) ks) ≡ true
  every-not-contains p [] entries new = refl
  every-not-contains p (k ∷ ks) entries new =
      ground (arith, contains-build-false p k entries new, every-not-contains p ks entries new)

  pub build-IsDistinct :
      (entries : List (Text × S))
      → IsDistinct (keys entries)
      → IsDistinct (names (build block entries))
  unfolding build
  build-IsDistinct [] d = tt
  build-IsDistinct ((p, s) ∷ entries) d = rw names-append (
      IsDistinct-append (names (block p s)) (names (build block entries))
        (rw family.names_block (map-IsDistinct naming p (family.kinds s) (family.kinds_distinct s)))
        (build-IsDistinct entries d.1)
        (rw family.names_block (every-not-contains p (family.kinds s) entries d.0)))

  -- The prerequisites of all checks are known and rank lower where those of each entry do.
  pub build-ranked :
      (known : List Text) (rank : Text → ℕ) (entries : List (Text × S))
      → All (λ e. every (is_ranked known rank) (block e.0 e.1) ≡ true) entries
      → every (is_ranked known rank) (build block entries) ≡ true
  unfolding build
  build-ranked known rank [] h = refl
  build-ranked known rank ((p, s) ∷ entries) h =
      every-append (is_ranked known rank) (block p s) (build block entries)
      ∙ ground (arith, h.0, build-ranked known rank entries h.1)

pub contains-false :
    (k : Text) (xs : List Text) → every (λ x. not (text_eq k x)) xs ≡ true → contains k xs ≡ false
unfolding contains
contains-false k [] h = refl
contains-false k (x ∷ xs) h = ground (arith, contains-false k xs)

has_prefix-contains :
    (p q x : Text) (ys : List Text)
    → differ p q ≡ true
    → has_prefix x p ≡ true
    → every (λ y. has_prefix y q) ys ≡ true
    → contains x ys ≡ false
unfolding contains
has_prefix-contains p q x [] d hx hys = refl
has_prefix-contains p q x (y ∷ ys) d hx hys =
    ground (arith, has_prefix-differ x y p q d, has_prefix-contains p q x ys d hx)

-- IDs with one prefix are none of those with another.
pub every-apart :
    (p q : Text) (xs ys : List Text)
    → differ p q ≡ true
    → every (λ x. has_prefix x p) xs ≡ true
    → every (λ y. has_prefix y q) ys ≡ true
    → every (λ x. not (contains x ys)) xs ≡ true
every-apart p q [] ys d hxs hys = refl
every-apart p q (x ∷ xs) ys d hxs hys =
    ground (arith, has_prefix-contains p q x ys d, every-apart p q xs ys d)
