-- ===== src/Collectors/Accounts/Index.antt =====
-- internal/collectors/accounts.go: a map from keys to entries with the set of the keys that come
-- with different entries, as `loadPasswd` and `loadGroup` fill them.
use savk.Base.{Bool, false, ◌||◌, List, [], ◌∷◌, Option, none, some, if◌then◌else◌}

-- `byKey`, the entry that came first for each key, and `dup`.
pub record KeyIndex (K E : Type 0) : Type 0 where
  pub entries : List (K × E)
  pub ambiguous : List K

abbrev pub empty_index : {K E : Type 0} → KeyIndex K E
empty_index = record { entries = []; ambiguous = [] }

unfoldable pub is_member : {K : Type 0} → (K → K → Bool) → K → List K → Bool
is_member key_eq k [] = false
is_member key_eq k (x ∷ xs) = key_eq k x || is_member key_eq k xs

unfoldable pub find_entry : {K E : Type 0} → (K → K → Bool) → K → List (K × E) → Option E
find_entry key_eq k [] = none
find_entry key_eq k ((x, e) ∷ xs) = if key_eq k x then some e else find_entry key_eq k xs

-- `byKey[k]`
unfoldable pub find : {K E : Type 0} → (K → K → Bool) → K → KeyIndex K E → Option E
unfolding find_entry
find key_eq k index = find_entry key_eq k index.entries

-- `_, ambiguous := dup[k]`
unfoldable pub is_ambiguous : {K E : Type 0} → (K → K → Bool) → K → KeyIndex K E → Bool
unfolding is_member
is_ambiguous key_eq k index = is_member key_eq k index.ambiguous

-- The end of the loop, for one of the two maps.
unfoldable pub add_entry :
    {K E : Type 0} → (K → K → Bool) → (E → E → Bool) → K → E → KeyIndex K E → KeyIndex K E
unfolding find
add_entry key_eq entry_eq k e index = elim (find key_eq k index) [
  | some existing ↦
      if entry_eq existing e then index else record index { ambiguous = k ∷ index.ambiguous }
  | none ↦ record index { entries = (k, e) ∷ index.entries }
]
