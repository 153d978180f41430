-- ===== src/Collectors/Accounts/Names.antt =====
-- internal/collectors/accounts.go: the names that numbers have, from the entries of a file.
use savk.Base.{ℕ, ◌≡◌, refl, ap, ◌∙◌, List, none, arith, ◌==◌, ==_iff, Result-cases, inl, inr}
use savk.Text.{codes}
use savk.Collectors.Accounts.Index.{empty_index, find, is_ambiguous}
use savk.Collectors.Accounts.Files.{
  AccountFiles, PasswdEntry, GroupEntry, passwd_entry_eq, group_entry_eq, add_user, add_group,
  empty_passwd, empty_group, parse_passwd_entry, parse_group_entry, load_passwd, load_group,
}
use savk.Collectors.Accounts.Unique.{answer, looked_up-missing}
use savk.Collectors.Accounts.{
  Cell, Loaded, passwd_table, group_table, user_of_uid, group_of_gid, user_name_by_uid,
  group_name_by_gid,
}
use savk.Collectors.Accounts.Entries.{
  fold_entries, by_uid-fold_entries, by_gid-fold_entries, answer_name,
  require_name-lookup_by_number, file_entries, scan_file-eq, name_in_file,
}

module _ {W : Type 0} (files : AccountFiles W) (cell : Cell Loaded W) where
  user_of_uid-fold_entries :
      (uid : ℕ) (es : List PasswdEntry)
      → user_of_uid files uid (fold_entries add_user es empty_passwd)
        ≡ answer_name
            (λ e. e.name)
            (codes "uid")
            files.passwd_path
            uid
            (answer (λ e. uid == e.uid) passwd_entry_eq es)
  unfolding user_of_uid find is_ambiguous
  user_of_uid-fold_entries uid es =
      require_name-lookup_by_number (λ e. e.name) (codes "uid") files.passwd_path
        (fold_entries add_user es empty_passwd).by_uid uid
      ∙ ap (answer_name (λ e. e.name) (codes "uid") files.passwd_path uid) (
          rw (by_uid-fold_entries es empty_passwd) (
            looked_up-missing ◌==◌ passwd_entry_eq (λ e. e.uid) ==_iff uid es empty_index refl
              refl))

  group_of_gid-fold_entries :
      (gid : ℕ) (es : List GroupEntry)
      → group_of_gid files gid (fold_entries add_group es empty_group)
        ≡ answer_name
            (λ e. e.name)
            (codes "gid")
            files.group_path
            gid
            (answer (λ e. gid == e.gid) group_entry_eq es)
  unfolding group_of_gid find is_ambiguous
  group_of_gid-fold_entries gid es =
      require_name-lookup_by_number (λ e. e.name) (codes "gid") files.group_path
        (fold_entries add_group es empty_group).by_gid gid
      ∙ ap (answer_name (λ e. e.name) (codes "gid") files.group_path gid) (
          rw (by_gid-fold_entries es empty_group) (
            looked_up-missing ◌==◌ group_entry_eq (λ e. e.gid) ==_iff gid es empty_index refl refl))

  user_name_by_uid-eq :
      (uid : ℕ) (w : W)
      → (cell.get w).passwd ≡ none
      → (user_name_by_uid files cell uid w).0
        ≡ name_in_file
            (parse_passwd_entry files.uint_error)
            (λ e. e.name)
            (λ e. e.uid)
            passwd_entry_eq
            (codes "uid")
            files.passwd_path
            (files.open_file files.passwd_path w).0
            uid
  unfolding user_name_by_uid passwd_table load_passwd name_in_file
  user_name_by_uid-eq uid w unread =
      let opened = (files.open_file files.passwd_path w).0 in
      let parse = parse_passwd_entry files.uint_error in
      let scanned = scan_file-eq parse add_user empty_passwd files.passwd_path opened in
      elim (Result-cases (file_entries parse files.passwd_path opened)) [
        | inl (e, failed) ↦ ground (arith, scanned)
        | inr (es, read) ↦ ground (arith, scanned, user_of_uid-fold_entries uid es)
      ]

  group_name_by_gid-eq :
      (gid : ℕ) (w : W)
      → (cell.get w).group ≡ none
      → (group_name_by_gid files cell gid w).0
        ≡ name_in_file
            (parse_group_entry files.uint_error)
            (λ e. e.name)
            (λ e. e.gid)
            group_entry_eq
            (codes "gid")
            files.group_path
            (files.open_file files.group_path w).0
            gid
  unfolding group_name_by_gid group_table load_group name_in_file
  group_name_by_gid-eq gid w unread =
      let opened = (files.open_file files.group_path w).0 in
      let parse = parse_group_entry files.uint_error in
      let scanned = scan_file-eq parse add_group empty_group files.group_path opened in
      elim (Result-cases (file_entries parse files.group_path opened)) [
        | inl (e, failed) ↦ ground (arith, scanned)
        | inr (es, read) ↦ ground (arith, scanned, group_of_gid-fold_entries gid es)
      ]

  -- A resolver that has read neither file yet gives a number the name that the first entry with it
  -- has, if all entries with the number are the same, and an error if no entry or different entries
  -- have it, if a line is no entry, or if the file cannot be read to its end.
  pub names_by_number-eq :
      (n : ℕ) (w : W)
      → (cell.get w).passwd ≡ none
      → (cell.get w).group ≡ none
      → ((user_name_by_uid files cell n w).0
          ≡ name_in_file
              (parse_passwd_entry files.uint_error)
              (λ e. e.name)
              (λ e. e.uid)
              passwd_entry_eq
              (codes "uid")
              files.passwd_path
              (files.open_file files.passwd_path w).0
              n)
        × ((group_name_by_gid files cell n w).0
            ≡ name_in_file
                (parse_group_entry files.uint_error)
                (λ e. e.name)
                (λ e. e.gid)
                group_entry_eq
                (codes "gid")
                files.group_path
                (files.open_file files.group_path w).0
                n)
  names_by_number-eq n w no_users no_groups =
      (user_name_by_uid-eq n w no_users, group_name_by_gid-eq n w no_groups)
