-- ===== src/CommandLine/Behind.antt =====
-- cmd/savk/main.go: checks behind the check of the observer's namespace, on which they wait.
use savk.Base.{◌≡◌, refl, ap, Bool, true, false, not, ◌&&◌, List, [], ◌∷◌, ltb, every, arith}
use savk.Text.{Text, text_eq, text_eq_refl}
use savk.Text.Order.{contains}
use savk.Engine.{Check}
use savk.Engine.Closed.{names}
use savk.Engine.Ordered.{IsOrdered, is_ranked, ranked-more}
use savk.Collectors.Build.Named.{contains-false}
use savk.Collectors.Preflight.{ProbeHost, namespace_check}
use savk.Collectors.Ranks.{check_rank}
use savk.CommandLine.{compact, with_prerequisite}

-- The two appends of `buildChecksForDomains` for checks of which there are some.
unfoldable pub behind_namespace :
    {W : Type 0} → ProbeHost W → Text → Text → Text → List (Check W) → List (Check W)
unfolding with_prerequisite
behind_namespace probe domain id target [] = []
behind_namespace probe domain id target (c ∷ checks) =
    namespace_check probe domain id target ∷ with_prerequisite id (c ∷ checks)

-- An ID stands behind another: it differs from it, and ranks higher.
abbrev pub is_behind : Text → Text → Bool
is_behind id x = not (text_eq id x) && ltb 0 (check_rank x)

every-compact :
    (q : Text → Bool) (x : Text) (xs : List Text)
    → q x ≡ true
    → every q xs ≡ true
    → every q (compact x xs) ≡ true
unfolding compact
every-compact q x [] hx h = ground arith
every-compact q x (y ∷ ys) hx h = ground (arith, every-compact q y ys)

every-and :
    (q r : Text → Bool) (xs : List Text)
    → every (λ x. q x && r x) xs ≡ true
    → (every q xs ≡ true) × (every r xs ≡ true)
every-and q r [] h = (refl, refl)
every-and q r (x ∷ xs) h = ground (arith, every-and q r xs)

module _ {W : Type 0} where
  pub names-with_prerequisite :
      (g : Text) (cs : List (Check W)) → names (with_prerequisite g cs) ≡ names cs
  unfolding with_prerequisite
  names-with_prerequisite g [] = refl
  names-with_prerequisite g (c ∷ cs) = ap (◌∷◌ c.id) (names-with_prerequisite g cs)

  -- Where the new prerequisite is known and ranks lowest, the checks stay ranked.
  with_prerequisite-ranked :
      (known : List Text) (g : Text) (cs : List (Check W))
      → contains g known ≡ true
      → check_rank g ≡ 0
      → every (λ x. ltb 0 (check_rank x)) (names cs) ≡ true
      → every (is_ranked known check_rank) cs ≡ true
      → every (is_ranked known check_rank) (with_prerequisite g cs) ≡ true
  unfolding with_prerequisite is_ranked
  with_prerequisite-ranked known g [] here low above h = refl
  with_prerequisite-ranked known g (c ∷ cs) here low above h = ground (
    arith,
    every-compact (λ p. contains p known && ltb (check_rank p) (check_rank c.id)) g c.prerequisites,
    with_prerequisite-ranked known g cs here low,
  )

  guarded-IsOrdered :
      (guard : Check W) (cs : List (Check W))
      → guard.prerequisites ≡ []
      → text_eq [] guard.id ≡ false
      → check_rank guard.id ≡ 0
      → every (is_behind guard.id) (names cs) ≡ true
      → IsOrdered check_rank cs
      → IsOrdered check_rank (guard ∷ with_prerequisite guard.id cs)
  unfolding contains is_ranked
  guarded-IsOrdered guard cs alone named low behind o =
      let same = names-with_prerequisite guard.id cs in
      let apart =
        every-and (λ x. not (text_eq guard.id x)) (λ x. ltb 0 (check_rank x)) (names cs) behind in
      let known = guard.id ∷ names (with_prerequisite guard.id cs) in
      record {
        distinct = (rw same (contains-false guard.id (names cs) (apart.0)), rw same o.distinct);
        named = ground (arith, ap (contains []) same, o.named);
        ranked = ground (
          arith,
          with_prerequisite-ranked known guard.id cs (ground (arith, text_eq_refl guard.id)) low
              (apart.1)
              (ranked-more check_rank (names cs) known cs
                (λ p h. ground (arith, ap (contains p) same)) o.ranked),
        );
      }

  -- Checks that can be ordered can be ordered behind the check of the namespace.
  pub behind_namespace-IsOrdered :
      (probe : ProbeHost W) (domain id target : Text) (cs : List (Check W))
      → text_eq [] id ≡ false
      → check_rank id ≡ 0
      → every (is_behind id) (names cs) ≡ true
      → IsOrdered check_rank cs
      → IsOrdered check_rank (behind_namespace probe domain id target cs)
  unfolding behind_namespace
  behind_namespace-IsOrdered probe domain id target [] named low behind o = o
  behind_namespace-IsOrdered probe domain id target (c ∷ cs) named low behind o =
      guarded-IsOrdered (namespace_check probe domain id target) (c ∷ cs) refl named low behind o

  -- What holds of the new ID and of the others.
  pub every-behind_namespace :
      (q : Text → Bool) (probe : ProbeHost W) (domain id target : Text) (cs : List (Check W))
      → q id ≡ true
      → every q (names cs) ≡ true
      → every q (names (behind_namespace probe domain id target cs)) ≡ true
  unfolding behind_namespace with_prerequisite
  every-behind_namespace q probe domain id target [] here h = refl
  every-behind_namespace q probe domain id target (c ∷ cs) here h =
      ground (arith, ap (every q) (names-with_prerequisite id cs))

  pub contains-behind_namespace :
      (k : Text) (probe : ProbeHost W) (domain id target : Text) (cs : List (Check W))
      → contains k (names cs) ≡ true
      → contains k (names (behind_namespace probe domain id target cs)) ≡ true
  unfolding behind_namespace with_prerequisite contains
  contains-behind_namespace k probe domain id target [] h = h
  contains-behind_namespace k probe domain id target (c ∷ cs) h =
      ground (arith, ap (contains k) (names-with_prerequisite id cs))
