-- ===== src/Engine/Run/Passing.antt =====
-- In a run, a check passes only if all its prerequisites pass.
use mathlib.Core.List.{append_assoc}
use savk.Base.{
  ◌≡◌, refl, ap, true, false, List, [], ◌∷◌, ◌++◌, none, some, every, arith, Result, ok, bind-eq-ok,
  All, inl, inr, Bool-cases,
}
use savk.Text.{Text, text_eq, text_eq_iff, text_eq_refl}
use savk.Text.Order.{contains, contains-append}
use savk.Evidence.{CheckResult}
use savk.Engine.{Context, Check, Stop, find_check, prerequisites_of, validate_checks}
use savk.Engine.Closed.{names}
use savk.Engine.Known.{every-contains}
use savk.Text.Distinct.{IsDistinct}
use savk.Engine.Order.{IsSchedule, validate_checks-IsSchedule}
use savk.Engine.Visits.{InOrder}
use savk.Engine.Run.{Host, Engine, Results, store_result, run_step, run_loop, run}
use savk.Engine.Run.Results.{
  result_of, has_passed, is_present, result_ids, result_of-append, contains-result_ids,
  find_blocking-none, run_step-pass, run_step-id, result_ids-run_loop,
}

present_of_contains :
    (by : Results) (acc : List CheckResult) (ps : List Text)
    → ((k : Text) → by k ≡ result_of acc k)
    → every (λ p. contains p (result_ids acc)) ps ≡ true
    → every (λ p. is_present (by p)) ps ≡ true
present_of_contains by acc [] tracks h = refl
present_of_contains by acc (p ∷ ps) tracks h =
    ground (arith, tracks p, contains-result_ids acc p, present_of_contains by acc ps tracks)

result_ids-append :
    (rs more : List CheckResult) → result_ids (rs ++ more) ≡ result_ids rs ++ result_ids more
result_ids-append [] more = refl
result_ids-append (r ∷ rs) more = ap (◌∷◌ r.check_id) (result_ids-append rs more)

module _ {W : Type 0} (host : Host W) (e : Engine) (ctx : Context)
    (prereqs : Text → List Text) where
  -- `by` holds the results so far, which are those of the checks before `cs`.
  record Tracks (by : Results) (acc : List CheckResult) (cs : List (Check W)) : Type 0 where
    holds : (k : Text) → by k ≡ result_of acc k
    in_order : InOrder prereqs (result_ids acc) (names cs)
    distinct : IsDistinct (names cs)
    new : (k : Text) → contains k (names cs) ≡ true → contains k (result_ids acc) ≡ false
    edges : All (λ (c : Check W). prereqs c.id ≡ c.prerequisites) cs

  Tracks-step :
      (by : Results) (acc : List CheckResult) (c : Check W) (cs : List (Check W)) (r : CheckResult)
      → r.check_id ≡ c.id
      → Tracks by acc (c ∷ cs)
      → Tracks (store_result by c.id r) (acc ++ (r ∷ [])) cs
  unfolding contains result_of
  Tracks-step by acc c cs r e t = record {
    holds = λ k. ground (
      arith,
      t.holds k,
      result_of-append acc (r ∷ []) k,
      contains-result_ids acc k,
      t.new c.id (ground (arith, text_eq_refl c.id)),
      text_eq_iff k c.id,
      text_eq_refl c.id,
    );
    in_order = rw (result_ids-append acc (r ∷ []), e) (t.in_order.1);
    distinct = t.distinct.1;
    new = λ k h. ground (
      arith,
      t.new k,
      result_ids-append acc (r ∷ []),
      contains-append k (result_ids acc) (c.id ∷ []),
      text_eq_iff k c.id,
      t.distinct.0,
    );
    edges = t.edges.1;
  }

  -- The results with those that the rest of the run adds.
  after : List CheckResult → List (Check W) → Results → W → List CheckResult
  after acc cs by w = acc ++ (run_loop host e ctx cs by w).0

  passing_here :
      (by : Results) (acc : List CheckResult) (c : Check W) (cs : List (Check W)) (w : W)
      (more : List CheckResult) (p : Text)
      → Tracks by acc (c ∷ cs)
      → contains p (prereqs c.id) ≡ true
      → has_passed (result_of (acc ++ ((run_step host e ctx c by w).0 ∷ more)) c.id) ≡ true
      → has_passed (result_of (acc ++ ((run_step host e ctx c by w).0 ∷ more)) p) ≡ true
  passing_here by acc c cs w more p t h passed =
      let r = (run_step host e ctx c by w).0 in
      let own = (run_step-id host e ctx c by w).0 in
      let fresh = t.new c.id (unfold contains in ground (arith, text_eq_refl c.id)) in
      let free = run_step-pass host e ctx c by w (
        unfold result_of in
        ground (
          arith,
          own,
          result_of-append acc (r ∷ more) c.id,
          contains-result_ids acc c.id,
          fresh,
          text_eq_refl c.id,
        )) in
      let all_present =
        present_of_contains by acc c.prerequisites t.holds (rw (t.edges.0) at t.in_order.0) in
      let all_passed = find_blocking-none c.prerequisites by free all_present in
      let p_passed =
        every-contains (λ q. has_passed (by q)) c.prerequisites p all_passed (rw t.edges.0 at h) in
      ground (arith, result_of-append acc (r ∷ more) p, t.holds p, p_passed)

  run_loop-passing :
      (cs : List (Check W)) (by : Results) (acc : List CheckResult) (w : W) (k p : Text)
      → Tracks by acc cs
      → contains k (names cs) ≡ true
      → contains p (prereqs k) ≡ true
      → has_passed (result_of (after acc cs by w) k) ≡ true
      → has_passed (result_of (after acc cs by w) p) ≡ true
  unfolding after run_loop contains
  run_loop-passing [] by acc w k p t known h passed = cc
  run_loop-passing (c ∷ cs) by acc w k p t known h passed = elim (Bool-cases (text_eq k c.id)) [
    | inl same ↦
        let k-eq = (text_eq_iff k c.id).0 same in
        passing_here by acc c cs w _ p t (rw k-eq at h) (rw k-eq at passed)
    | inr differs ↦
        let r = (run_step host e ctx c by w).0 in
        let regroup =
          append_assoc acc (r ∷ [])
            (run_loop host e ctx cs (store_result by c.id r) (run_step host e ctx c by w).1).0 in
        rw (← regroup) (
          run_loop-passing cs (store_result by c.id r) (acc ++ (r ∷ []))
            (run_step host e ctx c by w).1 k p
            (Tracks-step by acc c cs r (run_step-id host e ctx c by w).0 t) (ground arith) h
            (rw (← regroup) at passed))
  ]

-- A report has one result for each check, in an order of their prerequisites.
pub record IsReport {W : Type 0} (checks : List (Check W)) (results : List CheckResult)
    : Type 0 where
  pub same_names : (k : Text) → contains k (result_ids results) ≡ contains k (names checks)
  pub distinct : IsDistinct (result_ids results)
  pub in_order : InOrder (prerequisites_of checks) [] (result_ids results)

module _ {W : Type 0} (host : Host W) (e : Engine) (ctx : Context) where
  edges_of_found :
      (checks cs : List (Check W))
      → All (λ (c : Check W). find_check checks c.id ≡ some c) cs
      → All (λ (c : Check W). prerequisites_of checks c.id ≡ c.prerequisites) cs
  unfolding prerequisites_of
  edges_of_found checks [] h = tt
  edges_of_found checks (c ∷ cs) h = (rw (h.0, prerequisites_of), edges_of_found checks cs h.1)

  run-inversion :
      (checks : List (Check W)) (w w' : W) (results : List CheckResult)
      → run host e ctx checks w ≡ ok (results, w')
      → (ordered : List (Check W)) × IsSchedule checks ordered
        × ((run_loop host e ctx ordered (λ _. none) w).0 ≡ results)
  unfolding run
  run-inversion checks w w' results h =
      let (ordered, valid, looped) = bind-eq-ok (validate_checks checks) _ h in
      (ordered, validate_checks-IsSchedule checks ordered valid, loop_of looped)
    where
      loop_of :
          {x : List CheckResult × W}
          → ◌≡◌ {A = Result Stop (List CheckResult × W)} (ok x) (ok (results, w'))
          → x.0 ≡ results
      loop_of {x} eq =
          let both : x ≡ (results, w') = cc in ap (λ (y : List CheckResult × W). y.0) both

  -- A run that returns has one result for each check, each under its own ID, and puts it behind
  -- the results of the check's prerequisites.
  pub run-IsReport :
      (checks : List (Check W)) (w w' : W) (results : List CheckResult)
      → run host e ctx checks w ≡ ok (results, w')
      → IsReport checks results
  run-IsReport checks w w' results h =
      let (ordered, s, eq) = run-inversion checks w w' results h in
      let ids = result_ids-run_loop host e ctx ordered (λ _. none) w in
      rw (← eq) (record {
        same_names = λ k. rw ids (s.same_names k);
        distinct = rw ids s.distinct;
        in_order = rw ids s.in_order;
      })

  -- In the results of a run, a check passes only if every prerequisite of it passes.
  pub run-passing :
      (checks : List (Check W)) (w w' : W) (results : List CheckResult) (k p : Text)
      → run host e ctx checks w ≡ ok (results, w')
      → contains p (prerequisites_of checks k) ≡ true
      → has_passed (result_of results k) ≡ true
      → has_passed (result_of results p) ≡ true
  unfolding after
  run-passing checks w w' results k p h edge passed =
      let (ordered, s, eq) = run-inversion checks w w' results h in
      let known : contains k (names ordered) ≡ true = ground (
        arith,
        contains-result_ids results k,
        rw eq at (result_ids-run_loop host e ctx ordered (λ _. none) w),
      ) in
      rw eq at (
        run_loop-passing host e ctx (prerequisites_of checks) ordered (λ _. none) [] w k p
          (record {
            holds = λ k. unfold result_of in refl;
            in_order = s.in_order;
            distinct = s.distinct;
            new = λ k h. unfold contains in refl;
            edges = edges_of_found checks ordered s.found;
          })
          known edge (rw (← eq) at passed))
