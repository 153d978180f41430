-- ===== src/Collectors/Accounts/Once.antt =====
-- internal/collectors/accounts.go: each file is read once.
use savk.Base.{
  ℕ, ◌+◌, ◌≤◌, ◌≡◌, refl, List, [], ◌∷◌, none, some, arith, if◌then◌else◌, Option-cases,
  Result-cases, inl, inr, Result,
}
use savk.Text.{Text, text_eq}
use savk.Collectors.Accounts.Files.{AccountFiles, PasswdTable, GroupTable, load_passwd, load_group}
use savk.Collectors.Accounts.{
  Cell, Loaded, passwd_table, group_table, user_name_by_uid, group_name_by_gid, group_of_user,
  primary_group_name_by_user, normalize_user_value, normalize_group_value,
}

-- What has been set is there.
abbrev pub IsCell : {S W : Type 0} → Cell S W → Type 0
IsCell {S} {W} cell = (s : S) (w : W) → cell.get (cell.set s w) ≡ s

-- A call of the interface `AccountResolver`.
pub data Lookup : Type 0 where
  user_name : ℕ → Lookup
  group_name : ℕ → Lookup
  primary_group : Text → Lookup
  user_value : Text → Lookup
  group_value : Text → Lookup

-- How often each path has been opened: opening a file counts for its path only and keeps what the
-- resolver holds, and what the resolver holds is set without opening a file.
pub record CountsReads {W : Type 0} (files : AccountFiles W) (cell : Cell Loaded W)
    (reads : Text → W → ℕ) : Type 0 where
  pub opened :
      (path q : Text) (w : W)
      → reads q (files.open_file path w).1 ≡ reads q w + (if text_eq q path then 1 else 0)
  pub kept : (path : Text) (w : W) → cell.get (files.open_file path w).1 ≡ cell.get w
  pub unread : (l : Loaded) (q : Text) (w : W) → reads q (cell.set l w) ≡ reads q w
  pub set : IsCell cell

module _ {W : Type 0} (files : AccountFiles W) (cell : Cell Loaded W) where
  -- The world behind a call, and behind one call after the other.
  unfoldable pub after_lookup : Lookup → W → W
  after_lookup (user_name uid) w = (user_name_by_uid files cell uid w).1
  after_lookup (group_name gid) w = (group_name_by_gid files cell gid w).1
  after_lookup (primary_group user) w = (primary_group_name_by_user files cell user w).1
  after_lookup (user_value raw) w = (normalize_user_value files cell raw w).1
  after_lookup (group_value raw) w = (normalize_group_value files cell raw w).1

  unfoldable pub after_lookups : List Lookup → W → W
  after_lookups [] w = w
  after_lookups (l ∷ ls) w = after_lookups ls (after_lookup l w)

-- One read of a file, for its path.
abbrev pub one_read : Text → Text → ℕ
one_read path q = if text_eq q path then 1 else 0

module _ {W : Type 0} (files : AccountFiles W) (cell : Cell Loaded W) (reads : Text → W → ℕ)
    (counts : CountsReads files cell reads) (q : Text) where
  -- The reads of what the resolver holds.
  held : Loaded → ℕ
  held l =
      elim l.passwd [ none ↦ 0 | some _ ↦ one_read files.passwd_path q ]
      + elim l.group [ none ↦ 0 | some _ ↦ one_read files.group_path q ]

  -- Between two worlds, no more has been read than the resolver holds more.
  Spares : W → W → Type 0
  Spares w w' = reads q w' + held (cell.get w) ≤ reads q w + held (cell.get w')

  Spares-refl : (w : W) → Spares w w
  unfolding Spares
  Spares-refl w = omega arith

  Spares-trans : (a b c : W) → Spares a b → Spares b c → Spares a c
  unfolding Spares
  Spares-trans a b c h h' = omega arith

  -- A file that is opened, where the resolver then holds its read, too.
  load-Spares :
      (path : Text) (l : Loaded) (w : W)
      → held l ≡ one_read path q + held (cell.get w)
      → Spares w (cell.set l (files.open_file path w).1)
  unfolding Spares
  load-Spares path l w more =
      let opened = (files.open_file path w).1 in
      rw (counts.set l opened) (omega (arith, counts.unread l q opened, counts.opened path q w))

  held-passwd :
      (l : Loaded) (t : Result Text PasswdTable)
      → l.passwd ≡ none
      → held (record l { passwd = some t }) ≡ one_read files.passwd_path q + held l
  unfolding held
  held-passwd l t new = rw new (omega arith)

  held-group :
      (l : Loaded) (t : Result Text GroupTable)
      → l.group ≡ none
      → held (record l { group = some t }) ≡ one_read files.group_path q + held l
  unfolding held
  held-group l t new = rw new (omega arith)

  passwd_table-Spares : (w : W) → Spares w (passwd_table files cell w).1
  unfolding passwd_table
  passwd_table-Spares w = elim (Option-cases (cell.get w).passwd) [
    | inr (loaded, found) ↦
        let same : (passwd_table files cell w).1 ≡ w = rw (found, passwd_table) refl in
        rw same (Spares-refl w)
    | inl new ↦
        let opened = (files.open_file files.passwd_path w).1 in
        let loaded = (load_passwd files w).0 in
        let read : (passwd_table files cell w).1
            ≡ cell.set (record (cell.get opened) { passwd = some loaded }) opened =
          unfold load_passwd in rw (new, passwd_table) refl in
        rw read (
          load-Spares files.passwd_path (record (cell.get opened) { passwd = some loaded }) w
            (rw (counts.kept files.passwd_path w) (held-passwd (cell.get w) loaded new)))
  ]

  group_table-Spares : (w : W) → Spares w (group_table files cell w).1
  unfolding group_table
  group_table-Spares w = elim (Option-cases (cell.get w).group) [
    | inr (loaded, found) ↦
        let same : (group_table files cell w).1 ≡ w = rw (found, group_table) refl in
        rw same (Spares-refl w)
    | inl new ↦
        let opened = (files.open_file files.group_path w).1 in
        let loaded = (load_group files w).0 in
        let read : (group_table files cell w).1
            ≡ cell.set (record (cell.get opened) { group = some loaded }) opened =
          unfold load_group in rw (new, group_table) refl in
        rw read (
          load-Spares files.group_path (record (cell.get opened) { group = some loaded }) w
            (rw (counts.kept files.group_path w) (held-group (cell.get w) loaded new)))
  ]

  group_of_user-Spares :
      (user : Text) (table : PasswdTable) (w : W)
      → Spares w (group_of_user files cell user table w).1
  unfolding group_of_user group_name_by_gid
  group_of_user-Spares user table w = ground (arith, group_table-Spares w, Spares-refl w)

  primary_group-Spares :
      (user : Text) (w : W) → Spares w (primary_group_name_by_user files cell user w).1
  unfolding primary_group_name_by_user
  primary_group-Spares user w =
      let users = passwd_table files cell w in
      let groups = group_table files cell users.1 in
      elim (Result-cases users.0) [
        | inl (e, failed) ↦ ground (arith, passwd_table-Spares w)
        | inr (table, read) ↦
            let of_user = (group_of_user files cell user table groups.1).1 in
            let both =
              Spares-trans w users.1 groups.1 (passwd_table-Spares w)
                (group_table-Spares users.1) in
            ground (
              arith,
              both,
              Spares-trans w groups.1 of_user both (group_of_user-Spares user table groups.1),
            )
      ]

  after_lookup-Spares : (l : Lookup) (w : W) → Spares w (after_lookup files cell l w)
  unfolding after_lookup user_name_by_uid group_name_by_gid normalize_user_value
      normalize_group_value
  after_lookup-Spares (user_name uid) w = passwd_table-Spares w
  after_lookup-Spares (group_name gid) w = group_table-Spares w
  after_lookup-Spares (primary_group user) w = primary_group-Spares user w
  after_lookup-Spares (user_value raw) w = ground (arith, passwd_table-Spares w, Spares-refl w)
  after_lookup-Spares (group_value raw) w = ground (arith, group_table-Spares w, Spares-refl w)

  after_lookups-Spares : (ls : List Lookup) (w : W) → Spares w (after_lookups files cell ls w)
  unfolding after_lookups
  after_lookups-Spares [] w = Spares-refl w
  after_lookups-Spares (l ∷ ls) w =
      Spares-trans w (after_lookup files cell l w) (after_lookups files cell (l ∷ ls) w)
        (after_lookup-Spares l w) (after_lookups-Spares ls (after_lookup files cell l w))

  held-le : (l : Loaded) → held l ≤ one_read files.passwd_path q + one_read files.group_path q
  unfolding held
  held-le l = ground arith

  -- Each file is read at most once, whatever is asked of the resolver and in whatever order: behind
  -- any calls of it, a path has been opened at most once more for being that of the passwd file, and
  -- once more for being that of the group file.
  -- It is asked that the count of a path goes up by one when a file is opened under it, and only then.
  pub after_lookups-once :
      (ls : List Lookup) (w : W)
      → reads q (after_lookups files cell ls w)
        ≤ reads q w + (one_read files.passwd_path q + one_read files.group_path q)
  unfolding Spares
  after_lookups-once ls w =
      omega (arith, after_lookups-Spares ls w, held-le (cell.get (after_lookups files cell ls w)))
