-- ===== src/CommandLine/Guarded.antt =====
-- Checks under a check that `withPrerequisite` puts before them.
use savk.Base.{◌≡◌, refl, ap, true, false, ◌||◌, List, [], ◌∷◌, ◌++◌, ok, arith, bind-eq-ok}
use savk.Text.{Text, text_eq, text_eq_iff, text_eq_refl}
use savk.Text.Order.{contains, contains-append}
use savk.Text.Distinct.{IsDistinct}
use savk.Evidence.{CheckResult}
use savk.Engine.{Check, Context, find_check, prerequisites_of, validate_checks}
use savk.Engine.Ordered.{names-append}
use savk.Engine.Closed.{names, prerequisites_of-cons, validate_checks-IsClosed}
use savk.Engine.Run.{Host, Engine, run}
use savk.Engine.Run.Results.{result_of, has_passed}
use savk.Engine.Run.Passing.{run-passing}
use savk.CommandLine.{compact, with_prerequisite}

pub contains-compact :
    (q x : Text) (xs : List Text) → contains q (compact x xs) ≡ (text_eq q x || contains q xs)
unfolding compact contains
contains-compact q x [] = ground arith
contains-compact q x (y ∷ ys) =
    ground (arith, contains-compact q y ys, text_eq_iff x y, text_eq_iff q x, text_eq_iff q y)

contains-prerequisites_of :
    {W : Type 0} (p : Text) (cs : List (Check W)) (k : Text)
    → contains k (names cs) ≡ true
    → contains p (prerequisites_of (with_prerequisite p cs) k) ≡ true
unfolding contains prerequisites_of find_check with_prerequisite
contains-prerequisites_of p [] k h = cc
contains-prerequisites_of p (c ∷ cs) k h =
    ground (
      arith,
      contains-compact p p c.prerequisites,
      text_eq_refl p,
      contains-prerequisites_of p cs k,
    )

-- What stands before and behind the checks of an ID does not change its prerequisites.
prerequisites_of-before :
    {W : Type 0} (before cs : List (Check W)) (k : Text)
    → contains k (names before) ≡ false
    → prerequisites_of (before ++ cs) k ≡ prerequisites_of cs k
unfolding contains
prerequisites_of-before [] cs k h = refl
prerequisites_of-before (c ∷ before) cs k h =
    ground (arith, prerequisites_of-cons c (before ++ cs) k, prerequisites_of-before before cs k)

prerequisites_of-behind :
    {W : Type 0} (cs after : List (Check W)) (k : Text)
    → contains k (names cs) ≡ true
    → prerequisites_of (cs ++ after) k ≡ prerequisites_of cs k
unfolding contains
prerequisites_of-behind [] after k h = absurd (cc)
prerequisites_of-behind (c ∷ cs) after k h = ground (
  arith,
  prerequisites_of-cons c (cs ++ after) k,
  prerequisites_of-cons c cs k,
  prerequisites_of-behind cs after k,
)

names-with_prerequisite :
    {W : Type 0} (p : Text) (cs : List (Check W)) → names (with_prerequisite p cs) ≡ names cs
unfolding with_prerequisite
names-with_prerequisite p [] = refl
names-with_prerequisite p (c ∷ cs) = ap (◌∷◌ c.id) (names-with_prerequisite p cs)

-- An ID that stands in both of two lists stands twice in them.
contains-apart :
    (k : Text) (xs ys : List Text)
    → IsDistinct (xs ++ ys)
    → contains k ys ≡ true
    → contains k xs ≡ false
unfolding contains
contains-apart k [] ys d h = refl
contains-apart k (x ∷ xs) ys d h =
    ground (arith, contains-append x xs ys, text_eq_iff k x, contains-apart k xs ys d.1 h, d.0)

-- The checks of a run of which `with_prerequisite` has made some, between any others.
abbrev pub around :
    {W : Type 0} → List (Check W) → Text → List (Check W) → List (Check W) → List (Check W)
around before p cs after = before ++ (with_prerequisite p cs ++ after)

contains-around :
    {W : Type 0} (before cs after : List (Check W)) (p k : Text)
    → IsDistinct (names (around before p cs after))
    → contains k (names cs) ≡ true
    → contains p (prerequisites_of (around before p cs after) k) ≡ true
contains-around before cs after p k d here =
    let middle = with_prerequisite p cs in
    let found : contains k (names middle) ≡ true = rw (names-with_prerequisite p cs) here in
    let behind : contains k (names (middle ++ after)) ≡ true =
      rw (names-append middle after)
        (ground (arith, contains-append k (names middle) (names after))) in
    let apart =
      contains-apart k (names before) (names (middle ++ after))
        (rw (names-append before (middle ++ after)) at d) behind in
    rw
      (
        prerequisites_of-before before (middle ++ after) k apart,
        prerequisites_of-behind middle after k found,
      )
      (contains-prerequisites_of p cs k here)

module _ {W : Type 0} (host : Host W) (e : Engine) (ctx : Context) where
  -- In every run, whatever other checks stand before and behind, a check to which
  -- `withPrerequisite` has added an ID passes only if the check with that ID passes.
  pub run-with_prerequisite :
      (before cs after : List (Check W)) (p k : Text) (w w' : W) (results : List CheckResult)
      → run host e ctx (around before p cs after) w ≡ ok (results, w')
      → contains k (names cs) ≡ true
      → has_passed (result_of results k) ≡ true
      → has_passed (result_of results p) ≡ true
  unfolding run
  run-with_prerequisite before cs after p k w w' results h here passed =
      let checks = around before p cs after in
      let (ordered, valid, looped) = bind-eq-ok (validate_checks checks) _ h in
      let distinct = (validate_checks-IsClosed checks ordered valid).distinct in
      run-passing host e ctx checks w w' results k p h
        (contains-around before cs after p k distinct here) passed
