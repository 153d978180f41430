-- ===== src/Engine/Ordered.antt =====
-- Checks that can be ordered, for one numbering of IDs that falls along prerequisites.
use savk.Base.{
  ℕ, ◌≡◌, refl, ◌∙◌, ap, Bool, true, false, not, ◌&&◌, ◌||◌, List, [], ◌∷◌, ◌++◌, ok, ltb, every,
  arith, inl, inr, Bool-cases, if◌then◌else◌,
}
use savk.Text.{Text, text_eq, text_eq_iff}
use savk.Text.Order.{contains, contains-append}
use savk.Text.Distinct.{IsDistinct, IsDistinct-append}
use savk.Engine.{Check, find_check, prerequisites_of, validate_checks}
use savk.Engine.Closed.{names, prerequisites_of-cons}
use savk.Engine.Known.{every-contains}
use savk.Engine.Order.{validate_checks_complete}

module _ {W : Type 0} where
  -- The prerequisites of a check are known, and rank below it.
  unfoldable pub is_ranked : List Text → (Text → ℕ) → Check W → Bool
  is_ranked known rank c = every (λ p. contains p known && ltb (rank p) (rank c.id)) c.prerequisites

  pub prerequisites_of-ranked :
      (known : List Text) (rank : Text → ℕ) (cs : List (Check W)) (k p : Text)
      → every (is_ranked known rank) cs ≡ true
      → contains p (prerequisites_of cs k) ≡ true
      → (contains p known && ltb (rank p) (rank k)) ≡ true
  unfolding prerequisites_of find_check contains is_ranked
  prerequisites_of-ranked known rank [] k p h edge = cc
  prerequisites_of-ranked known rank (c ∷ cs) k p h edge = elim (Bool-cases (text_eq k c.id)) [
    | inl same ↦ rw ((text_eq_iff k c.id).0 same) (
        every-contains (λ p. contains p known && ltb (rank p) (rank c.id)) c.prerequisites p
          (ground arith) (rw (prerequisites_of-cons c cs k, same) at edge))
    | inr differs ↦
        prerequisites_of-ranked known rank cs k p (ground arith)
          (rw (prerequisites_of-cons c cs k, differs) at edge)
  ]

  pub names-append : (xs ys : List (Check W)) → names (xs ++ ys) ≡ names xs ++ names ys
  names-append [] ys = refl
  names-append (x ∷ xs) ys = ap (◌∷◌ x.id) (names-append xs ys)

  pub contains-names-append :
      (k : Text) (xs ys : List (Check W))
      → contains k (names (xs ++ ys)) ≡ (contains k (names xs) || contains k (names ys))
  contains-names-append k xs ys = rw names-append (contains-append k (names xs) (names ys))

pub every-append {ℓ} :
    {A : Type ℓ} (q : A → Bool) (xs ys : List A) → every q (xs ++ ys) ≡ (every q xs && every q ys)
every-append q [] ys = refl
every-append q (x ∷ xs) ys = ground (arith, every-append q xs ys)

known-more :
    (rank : Text → ℕ) (known more : List Text) (ps : List Text) (n : ℕ)
    → ((p : Text) → contains p known ≡ true → contains p more ≡ true)
    → every (λ p. contains p known && ltb (rank p) n) ps ≡ true
    → every (λ p. contains p more && ltb (rank p) n) ps ≡ true
known-more rank known more [] n h e = refl
known-more rank known more (p ∷ ps) n h e = ground (arith, h p, known-more rank known more ps n h)

module _ {W : Type 0} (rank : Text → ℕ) where
  -- The IDs are distinct and not empty, and prerequisites are known and rank lower.
  pub record IsOrdered (checks : List (Check W)) : Type 0 where
    pub distinct : IsDistinct (names checks)
    pub named : contains [] (names checks) ≡ false
    pub ranked : every (is_ranked (names checks) rank) checks ≡ true

  -- Such checks pass the engine's validation.
  pub validate_checks-IsOrdered :
      (checks : List (Check W))
      → IsOrdered checks
      → (ordered : List (Check W)) × (validate_checks checks ≡ ok ordered)
  validate_checks-IsOrdered checks o =
      let edges = prerequisites_of-ranked (names checks) rank checks in
      validate_checks_complete checks rank
        (record {
          distinct = o.distinct;
          named = o.named;
          known = λ k p here edge. ground (arith, edges k p o.ranked edge);
        })
        (λ k p edge. ground (arith, edges k p o.ranked edge))

  -- What is known may grow.
  pub ranked-more :
      (known more : List Text) (cs : List (Check W))
      → ((p : Text) → contains p known ≡ true → contains p more ≡ true)
      → every (is_ranked known rank) cs ≡ true
      → every (is_ranked more rank) cs ≡ true
  unfolding is_ranked
  ranked-more known more [] h e = refl
  ranked-more known more (c ∷ cs) h e =
      ground (
        arith,
        known-more rank known more c.prerequisites (rank c.id) h,
        ranked-more known more cs h,
      )

  -- Checks whose prerequisites are among them and others.
  pub IsOrdered-append :
      (xs ys : List (Check W))
      → IsOrdered xs
      → IsDistinct (names ys)
      → contains [] (names ys) ≡ false
      → every (is_ranked (names (xs ++ ys)) rank) ys ≡ true
      → every (λ x. not (contains x (names ys))) (names xs) ≡ true
      → IsOrdered (xs ++ ys)
  IsOrdered-append xs ys o distinct named ranked apart = record {
    distinct = rw names-append (IsDistinct-append (names xs) (names ys) o.distinct distinct apart);
    named = contains-names-append [] xs ys ∙ ground (arith, o.named);
    ranked =
        every-append (is_ranked (names (xs ++ ys)) rank) xs ys
        ∙ ground (
          arith,
          ranked-more (names xs) (names (xs ++ ys)) xs
              (λ p h. contains-names-append p xs ys ∙ ground arith) o.ranked,
        );
  }

  pub IsOrdered-union :
      (xs ys : List (Check W))
      → IsOrdered xs
      → IsOrdered ys
      → every (λ x. not (contains x (names ys))) (names xs) ≡ true
      → IsOrdered (xs ++ ys)
  IsOrdered-union xs ys o o' apart =
      IsOrdered-append xs ys o o'.distinct o'.named
        (ranked-more (names ys) (names (xs ++ ys)) ys
          (λ p h. contains-names-append p xs ys ∙ ground arith) o'.ranked)
        apart

  pub IsOrdered-if :
      (b : Bool) (xs ys : List (Check W))
      → IsOrdered xs
      → IsOrdered ys
      → IsOrdered (if b then xs else ys)
  IsOrdered-if true xs ys o o' = o
  IsOrdered-if false xs ys o o' = o'
