-- ===== src/Collectors/Accounts.antt =====
-- internal/collectors/accounts.go: the account database of a host, read once from its passwd and
-- group files.
pub mod Entries
pub mod Index
pub mod Files
pub mod Unique
pub mod Once
pub mod Names
use savk.Base.{
  ℕ, Bool, true, false, not, ◌&&◌, List, [], ◌∷◌, ◌++◌, Option, none, some, Result, ok, err, ◌>>=◌,
  if◌then◌else◌, ◌==◌,
}
use savk.Base.Int.{pos}
use savk.Text.{Text, text_eq, codes}
use savk.Text.Number.{itoa, atoi, parse_uint}
use savk.Text.Space.{trim_space}
use savk.Collectors.Accounts.Index.{KeyIndex, find, is_ambiguous}
use savk.Collectors.Accounts.Files.{
  AccountFiles, PasswdEntry, GroupEntry, PasswdTable, GroupTable, load_passwd, load_group,
}

-- An object that a world holds, behind a pointer: how to read it and how to set it.
pub record Cell (S W : Type 0) : Type 0 where
  pub get : W → S
  pub set : S → W → W

-- The interface `AccountResolver`, over a world.
pub record AccountResolver (W : Type 0) : Type 0 where
  pub user_name : ℕ → W → Result Text Text × W
  pub group_name : ℕ → W → Result Text Text × W
  pub primary_group : Text → W → Result Text Text × W
  pub user_value : Text → W → Result Text Text × W
  pub group_value : Text → W → Result Text Text × W
  pub passwd : Text
  pub group : Text

-- What `fileAccountResolver` keeps: the outcome of each `sync.Once`, when it has run. The maps of
-- a file that could not be read are never looked at.
pub record Loaded : Type 0 where
  pub passwd : Option (Result Text PasswdTable)
  pub group : Option (Result Text GroupTable)

-- `isNumericIdentifier`: `strconv.Atoi` reads the value.
unfoldable pub is_numeric_identifier : Text → Bool
is_numeric_identifier value = elim (atoi value) [ none ↦ false | some n ↦ true ]

-- A lookup by number, `lookupUserNameByUID` and `lookupGroupNameByGID`: the name, nothing, or the
-- number is ambiguous.
unfoldable pub lookup_by_number :
    {E : Type 0} → (E → Text) → Text → Text → KeyIndex ℕ E → ℕ → Result Text (Option Text)
unfolding is_ambiguous find
lookup_by_number name what path index n =
    if is_ambiguous ◌==◌ n index
    then err (what ++ (codes " " ++ (itoa (pos n) ++ (codes " is ambiguous in " ++ path))))
    else elim (find ◌==◌ n index) [ none ↦ ok none | some e ↦ ok (some (name e)) ]

-- A lookup by name, `lookupLiteralUserName` and `lookupLiteralGroupName`.
unfoldable pub lookup_by_name :
    {E : Type 0}
    → (E → Text)
    → (Text → Text)
    → Text
    → Text
    → KeyIndex Text E
    → Text
    → Result Text (Option Text)
unfolding is_ambiguous find
lookup_by_name name quoted what path index value =
    if is_ambiguous text_eq value index
    then err (what ++ (codes " " ++ (quoted value ++ (codes " is ambiguous in " ++ path))))
    else elim (find text_eq value index) [ none ↦ ok none | some e ↦ ok (some (name e)) ]

-- `uid %d is not present in %s`
unfoldable pub not_present : Text → Text → Text → Text
not_present what shown path =
    what ++ (codes " " ++ (shown ++ (codes " is not present in " ++ path)))

-- The name that a lookup by number finds, which `UserNameByUID` and `GroupNameByGID` return.
unfoldable pub require_name : Text → Text → ℕ → Result Text (Option Text) → Result Text Text
unfolding not_present
require_name what path n (err e) = err e
require_name what path n (ok none) = err (not_present what (itoa (pos n)) path)
require_name what path n (ok (some name)) = ok name

-- What `NormalizeUserValue` makes of the two lookups of a number.
unfoldable pub choose_name :
    (Text → Text) → Text → Text → Text → Text → ℕ → Option Text → Option Text → Result Text Text
unfolding not_present
choose_name quoted who what path value n (some literal) (some by_number) =
    if text_eq literal by_number
    then ok literal
    else err (
        codes "numeric "
        ++ (who
            ++ (codes " value "
                ++ (quoted value
                    ++ (codes " is ambiguous in "
                        ++ (path
                            ++ (codes ": literal name "
                                ++ (quoted literal
                                    ++ (codes " conflicts with "
                                        ++ (what
                                            ++ (codes " "
                                                ++ (itoa (pos n)
                                                    ++ (codes " -> "
                                                        ++ quoted by_number)))))))))))))
choose_name quoted who what path value n (some literal) none = ok literal
choose_name quoted who what path value n none (some by_number) = ok by_number
choose_name quoted who what path value n none none = err (not_present what (itoa (pos n)) path)

module _ {W : Type 0} (files : AccountFiles W) where
  unfoldable pub user_of_uid : ℕ → PasswdTable → Result Text Text
  user_of_uid uid table =
      require_name (codes "uid") files.passwd_path uid
        (lookup_by_number (λ e. e.name) (codes "uid") files.passwd_path table.by_uid uid)

  unfoldable pub group_of_gid : ℕ → GroupTable → Result Text Text
  group_of_gid gid table =
      require_name (codes "gid") files.group_path gid
        (lookup_by_number (λ e. e.name) (codes "gid") files.group_path table.by_gid gid)

  -- The end of `NormalizeUserValue`, where `value` is the number `n`.
  unfoldable pub user_of_number : Text → ℕ → PasswdTable → Result Text Text
  user_of_number value n table = do
    literal ←
        lookup_by_name (λ e. e.name) files.quoted (codes "user") files.passwd_path table.by_name
          value
    by_uid ← lookup_by_number (λ e. e.name) (codes "uid") files.passwd_path table.by_uid n
    choose_name files.quoted (codes "user") (codes "uid") files.passwd_path value n literal by_uid

  unfoldable pub group_of_number : Text → ℕ → GroupTable → Result Text Text
  group_of_number value n table = do
    literal ←
        lookup_by_name (λ e. e.name) files.quoted (codes "group") files.group_path table.by_name
          value
    by_gid ← lookup_by_number (λ e. e.name) (codes "gid") files.group_path table.by_gid n
    choose_name files.quoted (codes "group") (codes "gid") files.group_path value n literal by_gid

module _ {W : Type 0} (files : AccountFiles W) (cell : Cell Loaded W) where
  -- `loadPasswd`: the file is read by the first call.
  unfoldable pub passwd_table : W → Result Text PasswdTable × W
  passwd_table w = elim (cell.get w).passwd [
    | some loaded ↦ (loaded, w)
    | none ↦
        let (loaded, w') = load_passwd files w in
        (loaded, cell.set (record (cell.get w') { passwd = some loaded }) w')
  ]

  -- `loadGroup`
  unfoldable pub group_table : W → Result Text GroupTable × W
  group_table w = elim (cell.get w).group [
    | some loaded ↦ (loaded, w)
    | none ↦
        let (loaded, w') = load_group files w in
        (loaded, cell.set (record (cell.get w') { group = some loaded }) w')
  ]

  -- `UserNameByUID`
  unfoldable pub user_name_by_uid : ℕ → W → Result Text Text × W
  unfolding passwd_table user_of_uid
  user_name_by_uid uid w =
      let (loaded, w') = passwd_table w in
      (elim loaded [ err e ↦ err e | ok table ↦ user_of_uid files uid table ], w')

  -- `GroupNameByGID`
  unfoldable pub group_name_by_gid : ℕ → W → Result Text Text × W
  unfolding group_table group_of_gid
  group_name_by_gid gid w =
      let (loaded, w') = group_table w in
      (elim loaded [ err e ↦ err e | ok table ↦ group_of_gid files gid table ], w')

  -- The group of a user, once both files are read.
  group_of_user : Text → PasswdTable → W → Result Text Text × W
  unfolding group_name_by_gid
  group_of_user user table w =
      if is_ambiguous text_eq user table.by_name
      then (
        err (
            codes "user "
            ++ (files.quoted user ++ (codes " is ambiguous in " ++ files.passwd_path))),
        w,
      )
      else elim (find text_eq user table.by_name) [
        | none ↦ (err (not_present (codes "user") (files.quoted user) files.passwd_path), w)
        | some entry ↦
            let (group, w') = group_name_by_gid entry.gid w in
            (
              elim group [
                | ok name ↦ ok name
                | err e ↦ err (
                    codes "primary gid "
                    ++ (itoa (pos entry.gid)
                        ++ (codes " for user " ++ (files.quoted user ++ (codes ": " ++ e)))))
              ],
              w',
            )
      ]

  -- `PrimaryGroupNameByUser`
  unfoldable pub primary_group_name_by_user : Text → W → Result Text Text × W
  unfolding passwd_table group_table group_of_user
  primary_group_name_by_user user w =
      let (users, w1) = passwd_table w in
      elim users [
        | err e ↦ (err e, w1)
        | ok table ↦
            let (groups, w2) = group_table w1 in
            elim groups [ err e ↦ (err e, w2) | ok _ ↦ group_of_user user table w2 ]
      ]

  -- `NormalizeUserValue`
  unfoldable pub normalize_user_value : Text → W → Result Text Text × W
  unfolding is_numeric_identifier passwd_table user_of_number
  normalize_user_value raw w =
      let value = trim_space raw in
      if is_numeric_identifier value
      then (elim (parse_uint 10 32 value) [
        | none ↦ (err (codes "invalid numeric uid " ++ files.quoted value), w)
        | some n ↦
            let (loaded, w') = passwd_table w in
            (elim loaded [ err e ↦ err e | ok table ↦ user_of_number files value n table ], w')
      ])
      else (ok value, w)

  -- `NormalizeGroupValue`
  unfoldable pub normalize_group_value : Text → W → Result Text Text × W
  unfolding is_numeric_identifier group_table group_of_number
  normalize_group_value raw w =
      let value = trim_space raw in
      if is_numeric_identifier value
      then (elim (parse_uint 10 32 value) [
        | none ↦ (err (codes "invalid numeric gid " ++ files.quoted value), w)
        | some n ↦
            let (loaded, w') = group_table w in
            (elim loaded [ err e ↦ err e | ok table ↦ group_of_number files value n table ], w')
      ])
      else (ok value, w)

  -- The resolver as an `AccountResolver`.
  abbrev pub account_resolver : AccountResolver W
  account_resolver = record {
    user_name = user_name_by_uid;
    group_name = group_name_by_gid;
    primary_group = primary_group_name_by_user;
    user_value = normalize_user_value;
    group_value = normalize_group_value;
    passwd = files.passwd_path;
    group = files.group_path;
  }
