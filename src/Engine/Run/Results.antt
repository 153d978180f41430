-- ===== src/Engine/Run/Results.antt =====
-- What a run returns: a result for each check, and none that passes over a prerequisite that did not.
use savk.Base.{
  ℕ, ◌≡◌, refl, Bool, true, false, List, [], ◌∷◌, ◌++◌, Option, none, some, every, arith,
  if◌then◌else◌, inl, inr, Option-cases,
}
use savk.Text.{Text, text_eq}
use savk.Text.Order.{contains}
use savk.Evidence.{EvalStatus, CheckResult, is_pass}
use savk.Engine.{ContextError, Context, Check}
use savk.Engine.Closed.{names}
use savk.Engine.Run.{
  Host, Engine, Results, store_result, propagate_prerequisite_status, find_blocking,
  prerequisite_failure, panic_result, context_failure, finalize_result, run_check, run_step,
  run_loop,
}

module _ {W : Type 0} (host : Host W) where
  context_failure-id :
      (e : Engine) (c : Check W) (f : ContextError) (w : W)
      → ((context_failure host e c f w).0.check_id ≡ c.id)
        × ((context_failure host e c f w).0.domain ≡ c.domain)
  unfolding context_failure
  context_failure-id e c f w = ground arith

  finalize_result-id :
      (c : Check W) (r : CheckResult) (t : ℕ) (w : W)
      → ((finalize_result host c r t w).0.check_id ≡ c.id)
        × ((finalize_result host c r t w).0.domain ≡ c.domain)
  unfolding finalize_result
  finalize_result-id c r t w = ground arith

  run_check-id :
      (e : Engine) (ctx : Context) (c : Check W) (w : W)
      → ((run_check host e ctx c w).0.check_id ≡ c.id)
        × ((run_check host e ctx c w).0.domain ≡ c.domain)
  unfolding run_check panic_result
  run_check-id e ctx c w = ground arith

  pub run_step-id :
      (e : Engine) (ctx : Context) (c : Check W) (by : Results) (w : W)
      → ((run_step host e ctx c by w).0.check_id ≡ c.id)
        × ((run_step host e ctx c by w).0.domain ≡ c.domain)
  unfolding run_step prerequisite_failure
  run_step-id e ctx c by w = ground (arith, run_check-id e ctx c w)

-- The result of a check in a report.
unfoldable pub result_of : List CheckResult → Results
result_of [] k = none
result_of (r ∷ rs) k = let rest = result_of rs k in if text_eq k r.check_id then some r else rest

abbrev pub has_passed : Option CheckResult → Bool
has_passed none = false
has_passed (some r) = is_pass r.status

abbrev pub is_present : Option CheckResult → Bool
is_present none = false
is_present (some r) = true

abbrev pub result_ids : List CheckResult → List Text
result_ids [] = []
result_ids (r ∷ rs) = r.check_id ∷ result_ids rs

pub result_of-append :
    (rs more : List CheckResult) (k : Text)
    → result_of (rs ++ more) k
      ≡ (if is_present (result_of rs k) then result_of rs k else result_of more k)
unfolding result_of
result_of-append [] more k = refl
result_of-append (r ∷ rs) more k = ground (arith, result_of-append rs more k)

pub contains-result_ids :
    (rs : List CheckResult) (k : Text) → contains k (result_ids rs) ≡ is_present (result_of rs k)
unfolding contains result_of
contains-result_ids [] k = refl
contains-result_ids (r ∷ rs) k = ground (arith, contains-result_ids rs k)

-- With no blocking prerequisite, those that have a result passed.
pub find_blocking-none :
    (ps : List Text) (by : Results)
    → find_blocking ps by ≡ none
    → every (λ p. is_present (by p)) ps ≡ true
    → every (λ p. has_passed (by p)) ps ≡ true
unfolding find_blocking
find_blocking-none [] by h e = refl
find_blocking-none (p ∷ ps) by h e = ground (arith, find_blocking-none ps by)

propagate-ne-pass : (s : EvalStatus) → is_pass (propagate_prerequisite_status s) ≡ false
unfolding is_pass propagate_prerequisite_status
propagate-ne-pass _ = ground arith

module _ {W : Type 0} (host : Host W) (e : Engine) (ctx : Context) where
  -- A check that passes was not blocked.
  pub run_step-pass :
      (c : Check W) (by : Results) (w : W)
      → is_pass (run_step host e ctx c by w).0.status ≡ true
      → find_blocking c.prerequisites by ≡ none
  unfolding run_step prerequisite_failure
  run_step-pass c by w h = elim (Option-cases (find_blocking c.prerequisites by)) [
    | inl free ↦ free
    | inr ((p, r), blocked) ↦ absurd (ground (arith, propagate-ne-pass r.status))
  ]

  pub result_ids-run_loop :
      (cs : List (Check W)) (by : Results) (w : W)
      → result_ids (run_loop host e ctx cs by w).0 ≡ names cs
  unfolding run_loop
  result_ids-run_loop [] by w = refl
  result_ids-run_loop (c ∷ cs) by w = ground (
    arith,
    run_step-id host e ctx c by w,
    result_ids-run_loop cs (store_result by c.id (run_step host e ctx c by w).0)
        (run_step host e ctx c by w).1,
  )
