-- ===== src/Collectors/Accounts/Unique.antt =====
-- internal/collectors/accounts.go: what the filled maps say of a key, and of the entries of a file.
use savk.Base.{
  ◌≡◌, ◌↔◌, ap, ◌∙◌, Bool, true, false, Bool-cases, inl, inr, not, ◌&&◌, ◌||◌, List, [], ◌∷◌,
  Option, none, some, every, if◌then◌else◌, arith,
}
use savk.Collectors.Accounts.Index.{KeyIndex, find, find_entry, is_member, is_ambiguous, add_entry}

-- What a list of entries says of a key.
pub data Answer (E : Type 0) : Type 0 where
  missing : Answer E
  several : Answer E
  single : E → Answer E

-- The first entry that matches, if the later ones that match are equal to it.
unfoldable pub answer : {E : Type 0} → (E → Bool) → (E → E → Bool) → List E → Answer E
answer matches entry_eq [] = missing
answer matches entry_eq (e ∷ es) =
    let rest = answer matches entry_eq es in
    if matches e
    then if every (λ x. not (matches x) || entry_eq e x) es then single e else several
    else rest

-- What the maps say of it.
abbrev pub looked_up : {E : Type 0} → Bool → Option E → Answer E
looked_up true o = several
looked_up false none = missing
looked_up false (some e) = single e

module _ {K E : Type 0} (key_eq : K → K → Bool) (entry_eq : E → E → Bool) (key : E → K)
    (key_eq_iff : (a b : K) → (key_eq a b ≡ true) ↔ (a ≡ b)) where
  unfoldable pub add_all : List E → KeyIndex K E → KeyIndex K E
  add_all [] index = index
  add_all (e ∷ es) index = add_all es (add_entry key_eq entry_eq (key e) e index)

  agree : K → E → List E → Bool
  agree k e es = every (λ x. not (key_eq k (key x)) || entry_eq e x) es

  find-add_entry :
      (k : K) (e : E) (index : KeyIndex K E)
      → find key_eq k (add_entry key_eq entry_eq (key e) e index) ≡ (elim (find key_eq k index) [
        | some x ↦ some x
        | none ↦ if key_eq k (key e) then some e else none
      ])
  unfolding add_entry find find_entry
  find-add_entry k e index = elim (Bool-cases (key_eq k (key e))) [
    | inl same ↦ ground (arith, ap (λ x. find key_eq x index) ((key_eq_iff k (key e)).0 same))
    | inr differs ↦ ground arith
  ]

  is_ambiguous-add_entry :
      (k : K) (e : E) (index : KeyIndex K E)
      → is_ambiguous key_eq k (add_entry key_eq entry_eq (key e) e index) ≡ (
          is_ambiguous key_eq k index || (elim (find key_eq k index) [
            | some x ↦ key_eq k (key e) && not (entry_eq x e)
            | none ↦ false
          ]))
  unfolding add_entry is_ambiguous is_member find
  is_ambiguous-add_entry k e index = elim (Bool-cases (key_eq k (key e))) [
    | inl same ↦ ground (arith, ap (λ x. find key_eq x index) ((key_eq_iff k (key e)).0 same))
    | inr differs ↦ ground arith
  ]

  -- A key with an entry.
  looked_up-found :
      (k : K) (x : E) (es : List E) (index : KeyIndex K E)
      → find key_eq k index ≡ some x
      → looked_up (is_ambiguous key_eq k (add_all es index)) (find key_eq k (add_all es index))
        ≡ (if is_ambiguous key_eq k index || not (agree k x es) then several else single x)
  unfolding add_all agree
  looked_up-found k x [] index found = ground arith
  looked_up-found k x (e ∷ es) index found =
      let index' = add_entry key_eq entry_eq (key e) e index in
      looked_up-found k x es index' (ground (arith, find-add_entry k e index))
      ∙ ground (arith, is_ambiguous-add_entry k e index)

  pub looked_up-missing :
      (k : K) (es : List E) (index : KeyIndex K E)
      → find key_eq k index ≡ none
      → is_ambiguous key_eq k index ≡ false
      → looked_up (is_ambiguous key_eq k (add_all es index)) (find key_eq k (add_all es index))
        ≡ answer (λ e. key_eq k (key e)) entry_eq es
  unfolding add_all answer agree
  looked_up-missing k [] index found clear = ground arith
  looked_up-missing k (e ∷ es) index found clear =
      let index' = add_entry key_eq entry_eq (key e) e index in
      ground (
        arith,
        find-add_entry k e index,
        is_ambiguous-add_entry k e index,
        looked_up-found k e es index',
        looked_up-missing k es index',
      )
