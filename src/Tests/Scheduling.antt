-- ===== src/Tests/Scheduling.antt =====
-- The engine over three checks and a clock that counts.
use savk.Base.{ℕ, suc, ◌≡◌, ◌≢◌, refl, true, false, List, [], ◌∷◌, none, ok, err, arith}
use savk.Base.Int.{pos}
use savk.Text.{Text, text_eq, text_eq_iff}
use savk.Text.Order.{contains, text_leb}
use savk.Evidence.{EvalStatus, pass, fail, is_pass, reasonless, absent, CheckResult}
use savk.Engine.{
  Context, returned, Check, out_of_fuel, fault, prerequisite_cycle, validate_checks,
  prerequisites_of,
}
use savk.Engine.Closed.{IsClosed, names}
use savk.Engine.Cycle.{IsCycle, Ranked}
use savk.Engine.Order.{
  IsSchedule, validate_checks-IsSchedule, validate_checks_complete, validate_checks-ne-out_of_fuel,
  validate_checks-IsCycle,
}
use savk.Engine.Run.{Host, Engine, run_done, run, engine_evidence}
use savk.Engine.Run.Results.{result_of, has_passed}
use savk.Engine.Run.Passing.{IsReport, run-IsReport, run-passing}

abbrev result : EvalStatus → CheckResult
result s = record {
  check_id = [];
  domain = [];
  status = s;
  reason_code = reasonless;
  expected = absent;
  observed = absent;
  evidence = engine_evidence [] 7;
  duration_ms = pos 0;
  message = [];
}

abbrev check : Text → List Text → EvalStatus → Check ℕ
check id prereqs s = record {
  id = id;
  domain = [];
  prerequisites = prereqs;
  run = λ ctx w. (returned (result s), suc w);
}

abbrev a : Check ℕ
a = check (b'a' ∷ []) [] pass

abbrev b : Check ℕ
b = check (b'b' ∷ []) ((b'a' ∷ []) ∷ []) pass

abbrev c : Check ℕ
c = check (b'c' ∷ []) ((b'b' ∷ []) ∷ (b'a' ∷ []) ∷ []) fail

abbrev checks : List (Check ℕ)
checks = c ∷ b ∷ a ∷ []

abbrev ordered : List (Check ℕ)
ordered = a ∷ b ∷ c ∷ []

checks_ordered : validate_checks checks ≡ ok ordered
unfolding validate_checks text_leb
checks_ordered = refl

validate_checks-IsSchedule_example : IsSchedule checks ordered
validate_checks-IsSchedule_example = validate_checks-IsSchedule checks ordered checks_ordered

abbrev looped : List (Check ℕ)
looped = check (b'a' ∷ []) ((b'b' ∷ []) ∷ []) pass ∷ b ∷ []

abbrev loop : List Text
loop = (b'a' ∷ []) ∷ (b'b' ∷ []) ∷ (b'a' ∷ []) ∷ []

looped_refused : validate_checks looped ≡ err (fault (prerequisite_cycle loop))
unfolding validate_checks text_leb
looped_refused = refl

validate_checks-IsCycle_example : IsCycle (prerequisites_of looped) loop
validate_checks-IsCycle_example = validate_checks-IsCycle looped loop looped_refused

validate_checks-ne-out_of_fuel_example : validate_checks looped ≢ err out_of_fuel
validate_checks-ne-out_of_fuel_example = validate_checks-ne-out_of_fuel looped

abbrev pub clock : Host ℕ
clock = record {
  now = λ w. (w, suc w);
  select = λ go w. let (outcome, w') = go w in (run_done outcome, w');
  duration_text = λ d. [];
}

abbrev engine : Engine
engine = record { collector_timeout = pos 5 }

abbrev pub background : Context
background = record { failure = none; has_deadline = false }

abbrev results : List CheckResult
results =
    record (result pass) { check_id = b'a' ∷ [] }
    ∷ record (result pass) { check_id = b'b' ∷ [] }
    ∷ record (result fail) { check_id = b'c' ∷ [] }
    ∷ []

checks_run : run clock engine background checks 0 ≡ ok (results, 9)
unfolding run text_leb
checks_run = refl

run-IsReport_example : IsReport checks results
run-IsReport_example = run-IsReport clock engine background checks 0 9 results checks_run

run-passing_example : has_passed (result_of results (b'a' ∷ [])) ≡ true
unfolding text_eq
run-passing_example =
    run-passing clock engine background checks 0 9 results (b'b' ∷ []) (b'a' ∷ []) checks_run
      b_needs_a b_passes
  where
    b_needs_a : contains (b'a' ∷ []) (prerequisites_of checks (b'b' ∷ [])) ≡ true
    b_needs_a = unfold contains prerequisites_of in refl

    b_passes : has_passed (result_of results (b'b' ∷ [])) ≡ true
    b_passes = unfold result_of is_pass in refl

known_prerequisites :
    (k p : Text)
    → contains k (names checks) ≡ true
    → contains p (prerequisites_of checks k) ≡ true
    → contains p (names checks) ≡ true
unfolding contains prerequisites_of
known_prerequisites k p hk hp = ground arith

checks-IsClosed : IsClosed checks
unfolding contains
checks-IsClosed = record {
  distinct = (refl, (refl, (refl, tt)));
  named = refl;
  known = known_prerequisites;
}

abbrev rank : Text → ℕ
rank (k ∷ _) = k
rank [] = 0

rank_of : (k : Text) (n : ℕ) → text_eq k (n ∷ []) ≡ true → rank k ≡ n
rank_of k n h = rw ((text_eq_iff k (n ∷ [])).0 h) refl

rank-Ranked : Ranked (prerequisites_of checks) rank
unfolding contains prerequisites_of
rank-Ranked k p h =
    ground (arith, rank_of k b'a', rank_of k b'b', rank_of k b'c', rank_of p b'a', rank_of p b'b')

validate_checks_complete_example : (found : List (Check ℕ)) × (validate_checks checks ≡ ok found)
validate_checks_complete_example = validate_checks_complete checks rank checks-IsClosed rank-Ranked
