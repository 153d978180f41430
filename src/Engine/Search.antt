-- ===== src/Engine/Search.antt =====
-- `detectCycles` and the visit of `validateChecks` walk the same graph the same way: the second
-- search is followed step by step along the first, for any depth of recursion.
use savk.Base.{
  ℕ, zero, suc, ◌<◌, ◌≡◌, refl, true, List, [], ◌∷◌, ◌++◌, inl, inr, every, length, arith, Result,
  ok, err, ◌>>=◌,
}
use savk.Text.{Text, text_eq_iff, text_eq_refl}
use savk.Text.Order.{contains, contains-append}
use savk.Engine.{
  unknown, active, done, Marks, set_mark, Stop, out_of_fuel, fault, fold_each, Walk, enter, leave,
  detect_visit, order_visit, detect_cycles, order_ids,
}
use savk.Engine.Marks.{
  is_marked, is_done, unmarked, Keeps, Keeps-trans, unmarked-le, Keeps-leave, unmarked-le-length,
  unmarked-enter,
}
use savk.Text.Distinct.{IsDistinct, IsDistinct-concat}
use savk.Engine.Visits.{
  detect_visit-unknown, detect_visit-active, detect_visit-done, order_visit-new, order_visit-old,
  InOrder, InOrder-concat, Mark-cases,
}

module _ (prereqs : Text → List Text) (ids : List Text) where
  -- The walk has visited what is marked and listed what is done, in order.
  pub record Agree (m : Marks) (w : Walk) : Type 0 where
    pub visits : (k : Text) → w.visited k ≡ is_marked (m k)
    pub lists : (k : Text) → contains k w.ordered ≡ is_done (m k)
    pub known : (k : Text) → is_marked (m k) ≡ true → contains k ids ≡ true
    pub distinct : IsDistinct w.ordered
    pub in_order : InOrder prereqs [] w.ordered

  -- What a search from the IDs `ks` gives, beside the walk that gives `s`: never too little fuel.
  abbrev pub Follows : List Text → Marks → Result Stop Marks → Result Stop Walk → Type 0
  Follows ks m (ok m') s =
      (w' : Walk) × (s ≡ ok w') × Agree m' w' × Keeps m m' × (every (λ k. is_done (m' k)) ks ≡ true)
  Follows ks m (err out_of_fuel) s = ⊥
  Follows ks m (err (fault e)) s = Unit {0}

  -- The step of a search, with what it gives when fewer than `n` IDs are left.
  abbrev FollowsBelow :
      ℕ → (Marks → Text → Result Stop Marks) → (Walk → Text → Result Stop Walk) → Type 0
  FollowsBelow n f g =
      (m : Marks) (w : Walk) (id : Text)
      → Agree m w
      → contains id ids ≡ true
      → unmarked m ids < n
      → Follows (id ∷ []) m (f m id) (g w id)

  -- The error cases need nothing of what follows.
  Follows-bind :
      (x : Text) (xs : List Text) (m : Marks) (r : Result Stop Marks) (s : Result Stop Walk)
      (f : Marks → Result Stop Marks) (g : Walk → Result Stop Walk)
      → Follows (x ∷ []) m r s
      → ((m' : Marks) (w' : Walk) → Agree m' w' → Keeps m m' → Follows xs m' (f m') (g w'))
      → Follows (x ∷ xs) m (r >>= f) (s >>= g)
  Follows-bind x xs m (err out_of_fuel) s f g h rest = absurd h
  Follows-bind x xs m (err (fault e)) s f g h rest = tt
  Follows-bind x xs m (ok m') s f g (w', e, agree, keep, done_x) rest =
      rw e (Follows-cons (f m') (g w') (rest m' w' agree keep))
    where
      Follows-cons :
          (r : Result Stop Marks) (s : Result Stop Walk)
          → Follows xs m' r s
          → Follows (x ∷ xs) m r s
      Follows-cons (err out_of_fuel) s h = absurd h
      Follows-cons (err (fault e)) s h = tt
      Follows-cons (ok m'') s (w'', e', agree', keep', done_xs) = (
        w'',
        e',
        agree',
        Keeps-trans m m' m'' keep keep',
        ground (arith, done_xs, keep' x, done_x),
      )

  fold_each-Follows :
      (n : ℕ) (f : Marks → Text → Result Stop Marks) (g : Walk → Text → Result Stop Walk)
      → FollowsBelow n f g
      → (ks : List Text) (m : Marks) (w : Walk) → Agree m w
      → every (λ k. contains k ids) ks ≡ true
      → unmarked m ids < n
      → Follows ks m (fold_each f m ks) (fold_each g w ks)
  fold_each-Follows n f g below [] m w agree known lt = (w, refl, agree, (λ k h. refl), refl)
  fold_each-Follows n f g below (k ∷ ks) m w agree known lt =
      Follows-bind k ks m (f m k) (g w k) _ _ (below m w k agree (ground arith) lt)
        λ m' w' agree' keep.
          fold_each-Follows n f g below ks m' w' agree' (ground arith)
            (omega (arith, unmarked-le m m' keep ids))

  enter-Agree :
      (m : Marks) (w : Walk) (id : Text)
      → Agree m w
      → m id ≡ unknown
      → contains id ids ≡ true
      → Agree (set_mark m id active) (enter w id)
  enter-Agree m w id agree new known = record {
    visits = λ k. ground (arith, agree.visits k);
    lists = λ k. ground (arith, agree.lists k, text_eq_iff k id);
    known = λ k h. ground (arith, agree.known k, text_eq_iff k id);
    distinct = agree.distinct;
    in_order = agree.in_order;
  }

  every-listed :
      (m : Marks) (w : Walk) (ks : List Text)
      → Agree m w
      → every (λ k. is_done (m k)) ks ≡ true
      → every (λ k. contains k w.ordered) ks ≡ true
  every-listed m w [] agree h = refl
  every-listed m w (k ∷ ks) agree h = ground (arith, agree.lists k, every-listed m w ks agree)

  leave-Agree :
      (m : Marks) (w : Walk) (id : Text)
      → Agree m w
      → m id ≡ active
      → every (λ k. is_done (m k)) (prereqs id) ≡ true
      → Agree (set_mark m id done) (leave w id)
  unfolding contains
  leave-Agree m w id agree open_id before = record {
    visits = λ k. ground (arith, agree.visits k, text_eq_iff k id);
    lists = λ k. ground (arith, agree.lists k, contains-append k w.ordered (id ∷ []));
    known = λ k h. ground (arith, agree.known k, text_eq_iff k id);
    distinct = IsDistinct-concat w.ordered id agree.distinct (ground (arith, agree.lists id));
    in_order =
        InOrder-concat prereqs [] w.ordered id agree.in_order
          (every-listed m w (prereqs id) agree before);
  }

  module _
      (closed : (k : Text)
        → contains k ids ≡ true
        → every (λ p. contains p ids) (prereqs k) ≡ true) where
    visit_new :
        (n : ℕ) (stack : List Text) (m : Marks) (w : Walk) (id : Text)
        → FollowsBelow n (detect_visit prereqs n (stack ++ (id ∷ []))) (order_visit prereqs n)
        → Agree m w
        → contains id ids ≡ true
        → unmarked m ids < suc n
        → m id ≡ unknown
        → Follows
            (id ∷ [])
            m
            (detect_visit prereqs (suc n) stack m id)
            (order_visit prereqs (suc n) w id)
    visit_new n stack m w id below agree known lt new =
        rw
          (
            detect_visit-unknown prereqs n stack m id new,
            order_visit-new prereqs n w id (ground (arith, agree.visits id)),
          )
          (Follows-leave _ _ (
            fold_each-Follows n _ _ below (prereqs id) (set_mark m id active) (enter w id)
              (enter-Agree m w id agree new known) (closed id known)
              (omega (arith, unmarked-enter m id ids new known))))
      where
        Follows-leave :
            (r : Result Stop Marks) (s : Result Stop Walk)
            → Follows (prereqs id) (set_mark m id active) r s
            → Follows
                (id ∷ [])
                m
                (r >>= λ m'. ok (set_mark m' id done))
                (s >>= λ w'. ok (leave w' id))
        Follows-leave (err out_of_fuel) s h = absurd h
        Follows-leave (err (fault e)) s h = tt
        Follows-leave (ok m') s (w', e, agree', keep, before) = rw e (
          leave w' id,
          refl,
          leave-Agree m' w' id agree' (ground (arith, keep id, text_eq_refl id)) before,
          Keeps-leave m m' id new keep,
          ground (arith, text_eq_refl id),
        )

    -- With fewer IDs left than fuel, the searches agree.
    visit-Follows :
        (n : ℕ) (stack : List Text)
        → FollowsBelow n (detect_visit prereqs n stack) (order_visit prereqs n)
    visit-Follows zero stack m w id agree known lt = absurd (omega arith)
    visit-Follows (suc n) stack m w id agree known lt = elim (Mark-cases (m id)) [
      | inl new ↦ visit_new n stack m w id (visit-Follows n (stack ++ (id ∷ []))) agree known lt new
      | inr (inl e) ↦ rw (detect_visit-active prereqs n stack m id e) tt
      | inr (inr e) ↦ rw (detect_visit-done prereqs n stack m id e) (
        w,
        order_visit-old prereqs n w id (ground (arith, agree.visits id)),
        agree,
        (λ k h. refl),
        ground arith,
      )
    ]

    -- The search from all the IDs, with one more unit of fuel than there are IDs.
    pub search-Follows :
        (ks : List Text) (n : ℕ)
        → every (λ k. contains k ids) ks ≡ true
        → length ids < n
        → Follows ks (λ _. unknown) (detect_cycles prereqs n ks) (order_ids prereqs n ks)
    unfolding detect_cycles order_ids
    search-Follows ks n known lt =
        fold_each-Follows n _ _ (visit-Follows n []) ks _ _
          (record {
            visits = λ k. refl;
            lists = λ k. unfold contains in refl;
            known = λ k h. cc;
            distinct = tt;
            in_order = tt;
          })
          known (omega (arith, unmarked-le-length (λ _. unknown) ids))
