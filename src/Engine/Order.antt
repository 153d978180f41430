-- ===== src/Engine/Order.antt =====
-- The order that `validateChecks` returns, when it returns one, and its errors.
use savk.Base.{
  ℕ, suc, ◌≡◌, ◌≢◌, refl, sym, ◌∙◌, List, [], some, length, arith, Result, ok, err, ◌>>=◌, All,
}
use savk.Text.{Text}
use savk.Text.Order.{contains, sort_strings, contains-sort_strings}
use savk.Engine.{
  Check, Marks, Stop, out_of_fuel, fault, empty_id, duplicate_id, missing_prerequisite,
  prerequisite_cycle, unknown, find_check, prerequisites_of, resolve, detect_cycles, order_ids,
  Walk, validate_checks,
}
use savk.Text.Distinct.{IsDistinct}
use savk.Engine.Marks.{is_done}
use savk.Engine.Search.{Follows, Agree, search-Follows}
use savk.Engine.Visits.{InOrder}
use savk.Engine.Cycle.{IsCycle, Ranked, Reports, detect_cycles-Reports, not-IsCycle}
use savk.Engine.Closed.{
  names, IsClosed, IsClosed-every, schedule, validate_checks-closed, validate_checks-IsClosed,
  validate_checks-search, names-resolve, resolve-found,
}
use savk.Engine.Known.{every-contains, every-of_contains}

module _ {W : Type 0} where
  -- The checks that `validateChecks` returns for these.
  pub record IsSchedule (checks ordered : List (Check W)) : Type 0 where
    pub same_names : (k : Text) → contains k (names ordered) ≡ contains k (names checks)
    pub distinct : IsDistinct (names ordered)
    pub found : All (λ (c : Check W). find_check checks c.id ≡ some c) ordered
    pub in_order : InOrder (prerequisites_of checks) [] (names ordered)

  Scheduled : List (Check W) → Result Stop (List (Check W)) → Type 0
  Scheduled checks (ok ordered) = IsSchedule checks ordered
  Scheduled checks (err out_of_fuel) = ⊥
  Scheduled checks (err (fault e)) = Unit {0}

  schedule-Scheduled :
      (checks : List (Check W)) → IsClosed checks → Scheduled checks (schedule checks)
  unfolding Scheduled schedule
  schedule-Scheduled checks closed = go _ _ (
      search-Follows (prerequisites_of checks) (names checks) (IsClosed-every checks closed)
        (sort_strings (names checks)) (suc (length (names checks)))
        (every-of_contains _ (sort_strings (names checks)) λ k h. rw contains-sort_strings at h)
        (omega arith))
    where
      walk-names :
          (m : Marks) (w : Walk)
          → Agree (prerequisites_of checks) (names checks) m w
          → names (resolve checks w.ordered) ≡ w.ordered
      walk-names m w agree =
          names-resolve checks w.ordered
            (every-of_contains _ w.ordered λ k h. ground (arith, agree.lists k, agree.known k))

      go :
          (r : Result Stop Marks) (s : Result Stop Walk)
          → Follows
              (prerequisites_of checks)
              (names checks)
              (sort_strings (names checks))
              (λ _. unknown)
              r
              s
          → Scheduled checks (r >>= λ _. (s >>= λ w. ok (resolve checks w.ordered)))
      go (err out_of_fuel) s h = absurd h
      go (err (fault e)) s h = tt
      go (ok m) s (w, e, agree, keep, all_done) = rw e (
          let same = walk-names m w agree in
          record {
            same_names = λ k. rw same (
                ground (
                  arith,
                  agree.lists k,
                  agree.known k,
                  contains-sort_strings k (names checks),
                  every-contains (λ j. is_done (m j)) (sort_strings (names checks)) k all_done,
                ));
            distinct = rw same agree.distinct;
            found = resolve-found checks w.ordered;
            in_order = rw same agree.in_order;
          })

  -- The searches of closed checks, by themselves.
  schedule-Follows :
      (checks : List (Check W))
      → IsClosed checks
      → Follows
          (prerequisites_of checks)
          (names checks)
          (sort_strings (names checks))
          (λ _. unknown)
          (detect_cycles
            (prerequisites_of checks)
            (suc (length (names checks)))
            (sort_strings (names checks)))
          (order_ids
            (prerequisites_of checks)
            (suc (length (names checks)))
            (sort_strings (names checks)))
  schedule-Follows checks closed =
      search-Follows (prerequisites_of checks) (names checks) (IsClosed-every checks closed)
        (sort_strings (names checks)) (suc (length (names checks)))
        (every-of_contains _ (sort_strings (names checks)) λ k h. rw contains-sort_strings at h)
        (omega arith)

  schedule-IsCycle :
      (checks : List (Check W)) (path : List Text)
      → schedule checks ≡ err (fault (prerequisite_cycle path))
      → IsClosed checks
      → IsCycle (prerequisites_of checks) path
  unfolding schedule
  schedule-IsCycle checks path h closed =
      go _ _ (schedule-Follows checks closed) (detect_cycles-Reports (prerequisites_of checks) _ _)
        h
    where
      go :
          (r : Result Stop Marks) (s : Result Stop Walk)
          → Follows
              (prerequisites_of checks)
              (names checks)
              (sort_strings (names checks))
              (λ _. unknown)
              r
              s
          → Reports (prerequisites_of checks) (λ _. unknown) r
          → (r >>= λ _. (s >>= λ w. ok (resolve checks w.ordered)))
            ≡ err (fault (prerequisite_cycle path))
          → IsCycle (prerequisites_of checks) path
      go (err out_of_fuel) s f c e = cc
      go (err (fault (prerequisite_cycle path'))) s f c e =
          let same : path' ≡ path = cc in rw (← same) c
      go (err (fault empty_id)) s f c e = absurd c
      go (err (fault (duplicate_id _))) s f c e = absurd c
      go (err (fault (missing_prerequisite _ _))) s f c e = absurd c
      go (ok m) s f c e = absurd (clash (rw f.1 at e))
        where
          clash : {B : List (Check W)} → ok B ≡ err (fault (prerequisite_cycle path)) → ⊥
          clash h = cc

  schedule_complete :
      (checks : List (Check W)) (rank : Text → ℕ)
      → IsClosed checks
      → Ranked (prerequisites_of checks) rank
      → (ordered : List (Check W)) × (schedule checks ≡ ok ordered)
  unfolding schedule
  schedule_complete checks rank closed falls =
      go _ _ (schedule-Follows checks closed) (detect_cycles-Reports (prerequisites_of checks) _ _)
    where
      go :
          (r : Result Stop Marks) (s : Result Stop Walk)
          → Follows
              (prerequisites_of checks)
              (names checks)
              (sort_strings (names checks))
              (λ _. unknown)
              r
              s
          → Reports (prerequisites_of checks) (λ _. unknown) r
          → (ordered : List (Check W)) × ((r >>= λ _. (s >>= λ w. ok (resolve checks w.ordered)))
              ≡ ok ordered)
      go (err out_of_fuel) s f c = absurd f
      go (err (fault (prerequisite_cycle path))) s f c =
          absurd (not-IsCycle (prerequisites_of checks) rank falls path c)
      go (err (fault empty_id)) s f c = absurd c
      go (err (fault (duplicate_id _))) s f c = absurd c
      go (err (fault (missing_prerequisite _ _))) s f c = absurd c
      go (ok m) s f c = (resolve checks f.0.ordered, rw f.1)

  -- What `validateChecks` returns holds each check once, under the same IDs, and puts every check
  -- behind all its prerequisites.
  pub validate_checks-IsSchedule :
      (checks ordered : List (Check W))
      → validate_checks checks ≡ ok ordered
      → IsSchedule checks ordered
  unfolding Scheduled
  validate_checks-IsSchedule checks ordered h =
      let closed = validate_checks-IsClosed checks ordered h in
      Scheduled-ok (schedule checks) (sym (validate_checks-closed checks closed) ∙ h)
        (schedule-Scheduled checks closed)
    where
      Scheduled-ok :
          (r : Result Stop (List (Check W)))
          → r ≡ ok ordered
          → Scheduled checks r
          → IsSchedule checks ordered
      Scheduled-ok r e s = rw e at s

  -- Checks with distinct IDs, none of them empty, and known prerequisites, are put in order
  -- whenever some numbering of the IDs falls along prerequisites.
  pub validate_checks_complete :
      (checks : List (Check W)) (rank : Text → ℕ)
      → IsClosed checks
      → Ranked (prerequisites_of checks) rank
      → (ordered : List (Check W)) × (validate_checks checks ≡ ok ordered)
  validate_checks_complete checks rank closed falls =
      let (ordered, e) = schedule_complete checks rank closed falls in
      (ordered, validate_checks-closed checks closed ∙ e)

  -- Whatever the checks are, validation ends with an order or an error of the source: the searches
  -- stay within their fuel.
  pub validate_checks-ne-out_of_fuel :
      (checks : List (Check W)) → validate_checks checks ≢ err out_of_fuel
  unfolding Scheduled
  validate_checks-ne-out_of_fuel checks h =
      let closed = validate_checks-search checks out_of_fuel h refl in
      rw (sym (validate_checks-closed checks closed) ∙ h) at (schedule-Scheduled checks closed)

  -- A reported cycle is one: each ID of the path is followed by one of its prerequisites, and the
  -- last has been met before.
  pub validate_checks-IsCycle :
      (checks : List (Check W)) (path : List Text)
      → validate_checks checks ≡ err (fault (prerequisite_cycle path))
      → IsCycle (prerequisites_of checks) path
  validate_checks-IsCycle checks path h =
      let closed = validate_checks-search checks _ h refl in
      schedule-IsCycle checks path (sym (validate_checks-closed checks closed) ∙ h) closed
