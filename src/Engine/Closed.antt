-- ===== src/Engine/Closed.antt =====
-- The two loops of `validateChecks` over the checks: what they accept.
use mathlib.Core.List.{append-nil, append_assoc}
use savk.Base.{
  if◌then◌else◌, suc, ◌≡◌, ◌↔◌, refl, sym, ◌∙◌, ap, true, false, List, [], ◌∷◌, ◌++◌, some, inl,
  inr, every, length, arith, Result, ok, err, ◌>>=◌, bind-eq-ok, bind-eq-err, All, Bool-cases,
  Option-cases,
}
use savk.Text.{Text, text_eq, text_eq_iff}
use savk.Text.Order.{contains, sort_strings, contains-sort_strings}
use savk.Engine.{
  Check, Stop, find_check, prerequisites_of, resolve, collect_ids, require_all, detect_cycles,
  order_ids, validate_checks,
}
use savk.Text.Distinct.{IsDistinct, IsDistinct-concat}
use savk.Engine.Known.{
  every-contains, every-of_contains, contains-snoc, IsDistinct-middle, require_known_iff,
  is_from_search, require_known-err,
}

module _ {W : Type 0} where
  abbrev pub names : List (Check W) → List Text
  names [] = []
  names (c ∷ cs) = c.id ∷ names cs

  -- What the two loops over the checks ask of them.
  pub record IsClosed (checks : List (Check W)) : Type 0 where
    pub distinct : IsDistinct (names checks)
    pub named : contains [] (names checks) ≡ false
    pub known :
        (k p : Text)
        → contains k (names checks) ≡ true
        → contains p (prerequisites_of checks k) ≡ true
        → contains p (names checks) ≡ true

  contains-find_check :
      (checks : List (Check W)) (k : Text)
      → contains k (names checks) ≡ true
      → (c : Check W) × (find_check checks k ≡ some c) × (c.id ≡ k)
  unfolding contains find_check
  contains-find_check [] k h = cc
  contains-find_check (c ∷ cs) k h = elim (Bool-cases (text_eq k c.id)) [
    | inl same ↦ (c, ground arith, ground (arith, text_eq_iff k c.id))
    | inr differs ↦
        let (d, found, e) = contains-find_check cs k (ground arith) in (d, ground arith, e)
  ]

  pub names-resolve :
      (checks : List (Check W)) (ks : List Text)
      → every (λ k. contains k (names checks)) ks ≡ true
      → names (resolve checks ks) ≡ ks
  unfolding resolve
  names-resolve checks [] h = refl
  names-resolve checks (k ∷ ks) h =
      let (c, found, e) = contains-find_check checks k (ground arith) in
      ground (arith, names-resolve checks ks)

  find_check-id :
      (checks : List (Check W)) (k : Text) (c : Check W) → find_check checks k ≡ some c → c.id ≡ k
  unfolding find_check
  find_check-id [] k c h = cc
  find_check-id (d ∷ ds) k c h = ground (arith, text_eq_iff k d.id, find_check-id ds k c)

  pub resolve-found :
      (checks : List (Check W)) (ks : List Text)
      → All (λ (c : Check W). find_check checks c.id ≡ some c) (resolve checks ks)
  unfolding resolve
  resolve-found checks [] = tt
  resolve-found checks (k ∷ ks) = elim (Option-cases (find_check checks k)) [
    | inl e ↦ rw (e, resolve) (resolve-found checks ks)
    | inr (c, e) ↦
        rw (e, resolve)
          (ap (find_check checks) (find_check-id checks k c e) ∙ e, resolve-found checks ks)
  ]

  collect_ids-eq :
      (cs : List (Check W)) (acc ids : List Text)
      → IsDistinct acc
      → contains [] acc ≡ false
      → collect_ids cs acc ≡ ok ids
      → (ids ≡ acc ++ names cs) × IsDistinct ids × (contains [] ids ≡ false)
  unfolding collect_ids
  collect_ids-eq [] acc ids d n h = let e : acc ≡ ids = cc in rw (← e) (sym (append-nil acc), d, n)
  collect_ids-eq (c ∷ cs) acc ids d n h = elim (Bool-cases (text_eq c.id [])) [
    | inl empty ↦ absurd (ground arith)
    | inr named ↦ elim (Bool-cases (contains c.id acc)) [
      | inl again ↦ absurd (ground arith)
      | inr new ↦
          let (e, d', n') =
            collect_ids-eq cs (acc ++ (c.id ∷ [])) ids (IsDistinct-concat acc c.id d new)
              (ground (arith, contains-snoc [] acc c.id, text_eq_iff [] c.id, text_eq_iff c.id []))
              (ground arith) in
          (e ∙ append_assoc acc (c.id ∷ []) (names cs), d', n')
    ]
  ]

  collect_ids-names :
      (cs : List (Check W)) (acc : List Text)
      → IsDistinct (acc ++ names cs)
      → contains [] (names cs) ≡ false
      → collect_ids cs acc ≡ ok (acc ++ names cs)
  unfolding collect_ids contains
  collect_ids-names [] acc d n = rw append-nil
  collect_ids-names (c ∷ cs) acc d n = ground (
    arith,
    text_eq_iff c.id [],
    text_eq_iff [] c.id,
    IsDistinct-middle acc c.id (names cs) d,
    append_assoc acc (c.id ∷ []) (names cs),
    collect_ids-names cs (acc ++ (c.id ∷ [])) (rw append_assoc d),
  )

  require_all_iff :
      (checks : List (Check W)) (known ks : List Text)
      → (require_all checks known ks ≡ ok tt)
        ↔ (every (λ k. every (λ p. contains p known) (prerequisites_of checks k)) ks ≡ true)
  unfolding require_all
  require_all_iff checks known [] = ((λ h. refl), (λ h. refl))
  require_all_iff checks known (k ∷ ks) =
      let here = require_known_iff known k (prerequisites_of checks k) in
      let later = require_all_iff checks known ks in ground (arith, here, later)

  pub IsClosed-every :
      (checks : List (Check W))
      → IsClosed checks
      → (k : Text) → contains k (names checks) ≡ true
      → every (λ p. contains p (names checks)) (prerequisites_of checks k) ≡ true
  IsClosed-every checks closed k h =
      every-of_contains (λ p. contains p (names checks)) (prerequisites_of checks k)
        λ p e. closed.known k p h e

  -- After the two loops: the searches, from the sorted IDs.
  unfoldable pub schedule : List (Check W) → Result Stop (List (Check W))
  schedule checks = do
    _ ←
        detect_cycles (prerequisites_of checks) (suc (length (names checks)))
          (sort_strings (names checks))
    w ←
        order_ids (prerequisites_of checks) (suc (length (names checks)))
          (sort_strings (names checks))
    ok (resolve checks w.ordered)

  pub validate_checks-closed :
      (checks : List (Check W)) → IsClosed checks → validate_checks checks ≡ schedule checks
  unfolding validate_checks schedule
  validate_checks-closed checks closed = rw (
    collect_ids-names checks [] closed.distinct closed.named,
    (require_all_iff checks (names checks) (sort_strings (names checks))).1 (
        every-of_contains _ (sort_strings (names checks))
          λ k h. IsClosed-every checks closed k (rw contains-sort_strings at h)),
  )

  IsClosed-of_loops :
      (checks : List (Check W)) (ids : List Text) (u : Unit {0})
      → collect_ids checks [] ≡ ok ids
      → require_all checks ids (sort_strings ids) ≡ ok u
      → IsClosed checks
  IsClosed-of_loops checks ids u collected required =
      let (e, d, n) = collect_ids-eq checks [] ids tt (unfold contains in refl) collected in
      record {
        distinct = rw (← e) d;
        named = rw (← e) n;
        known = λ k p hk hp. rw (← e) (
            every-contains (λ p. contains p ids) (prerequisites_of checks k) p
              (every-contains (λ k. every (λ p. contains p ids) (prerequisites_of checks k))
                (sort_strings ids) k ((require_all_iff checks ids (sort_strings ids)).0 required)
                (rw (contains-sort_strings, e) hk))
              hp);
      }

  -- Whatever is returned, the two loops have passed.
  pub validate_checks-IsClosed :
      (checks ordered : List (Check W)) → validate_checks checks ≡ ok ordered → IsClosed checks
  unfolding validate_checks
  validate_checks-IsClosed checks ordered h =
      let (ids, collected, h') = bind-eq-ok (collect_ids checks []) _ h in
      let (u, required, _) = bind-eq-ok (require_all checks ids (sort_strings ids)) _ h' in
      IsClosed-of_loops checks ids u collected required

  collect_ids-err :
      (cs : List (Check W)) (acc : List Text) (e : Stop)
      → collect_ids cs acc ≡ err e
      → is_from_search e ≡ false
  unfolding collect_ids
  collect_ids-err [] acc e h = cc
  collect_ids-err (c ∷ cs) acc e h = ground (arith, collect_ids-err cs (acc ++ (c.id ∷ [])) e)

  require_all-err :
      (checks : List (Check W)) (known ks : List Text) (e : Stop)
      → require_all checks known ks ≡ err e
      → is_from_search e ≡ false
  unfolding require_all
  require_all-err checks known [] e h = cc
  require_all-err checks known (k ∷ ks) e h = ground (
    arith,
    require_known-err known k (prerequisites_of checks k) e,
    require_all-err checks known ks e,
  )

  -- An error of a search comes after both loops have passed.
  pub validate_checks-search :
      (checks : List (Check W)) (e : Stop)
      → validate_checks checks ≡ err e
      → is_from_search e ≡ true
      → IsClosed checks
  unfolding validate_checks
  validate_checks-search checks e h from = elim (bind-eq-err (collect_ids checks []) _ h) [
    | inl first ↦ absurd (ground (arith, collect_ids-err checks [] e first))
    | inr (ids, collected, h') ↦
        elim (bind-eq-err (require_all checks ids (sort_strings ids)) _ h') [
          | inl second ↦
              absurd (ground (arith, require_all-err checks ids (sort_strings ids) e second))
          | inr (u, required, _) ↦ IsClosed-of_loops checks ids u collected required
        ]
  ]

module _ {W : Type 0} where
  pub prerequisites_of-cons :
      (c : Check W) (cs : List (Check W)) (k : Text)
      → prerequisites_of (c ∷ cs) k
        ≡ (if text_eq k c.id then c.prerequisites else prerequisites_of cs k)
  unfolding prerequisites_of find_check
  prerequisites_of-cons c cs k = ground arith
