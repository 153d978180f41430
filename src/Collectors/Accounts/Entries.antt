-- ===== src/Collectors/Accounts/Entries.antt =====
-- internal/collectors/accounts.go: what the entries of a file say of a number.
use savk.Base.{
  ℕ, suc, ◌≡◌, refl, Bool, List, [], ◌∷◌, ◌++◌, none, some, Result, ok, err, if◌then◌else◌, arith,
  ◌==◌, ==_iff, Result-cases, inl, inr,
}
use savk.Base.Int.{pos}
use savk.Text.{Text, codes}
use savk.Text.Number.{itoa}
use savk.Text.Space.{trim_space}
use savk.Collectors.Accounts.Index.{KeyIndex, find, is_ambiguous}
use savk.Collectors.Accounts.Files.{
  Scan, PasswdEntry, GroupEntry, PasswdTable, GroupTable, passwd_entry_eq, group_entry_eq, add_user,
  add_group, is_skipped, at_line, scan_lines, scan_file,
}
use savk.Collectors.Accounts.Unique.{Answer, missing, several, single, answer, looked_up, add_all}
use savk.Collectors.Accounts.{lookup_by_number, require_name, not_present}

-- The entries of a file, or the first error.
unfoldable pub entries_of :
    {E : Type 0} → (Text → Text → Result Text E) → Text → ℕ → List Text → Result Text (List E)
entries_of parse path n [] = ok []
entries_of parse path n (raw ∷ lines) =
    let rest = entries_of parse path (suc n) lines in
    if is_skipped (trim_space raw)
    then rest
    else elim (parse (at_line path (suc n)) (trim_space raw)) [
      | err e ↦ err e
      | ok e ↦ elim rest [ err f ↦ err f | ok es ↦ ok (e ∷ es) ]
    ]

pub fold_entries : {E T : Type 0} → (E → T → T) → List E → T → T
fold_entries add [] t = t
fold_entries add (e ∷ es) t = fold_entries add es (add e t)

scan_lines-eq :
    {E T : Type 0} (parse : Text → Text → Result Text E) (add : E → T → T) (path : Text) (n : ℕ)
    (lines : List Text) (t : T)
    → scan_lines parse add path n lines t ≡ (elim (entries_of parse path n lines) [
      | err e ↦ err e
      | ok es ↦ ok (fold_entries add es t)
    ])
unfolding scan_lines entries_of fold_entries
scan_lines-eq parse add path n [] t = refl
scan_lines-eq parse add path n (raw ∷ lines) t =
    let later = scan_lines-eq parse add path (suc n) lines in
    elim (Result-cases (parse (at_line path (suc n)) (trim_space raw))) [
      | inl (e, failed) ↦ ground (arith, later t)
      | inr (e, parsed) ↦ ground (arith, later t, later (add e t))
    ]

pub by_uid-fold_entries :
    (es : List PasswdEntry) (t : PasswdTable)
    → (fold_entries add_user es t).by_uid
      ≡ add_all ◌==◌ passwd_entry_eq (λ e. e.uid) ==_iff es t.by_uid
unfolding fold_entries add_user add_all
by_uid-fold_entries [] t = refl
by_uid-fold_entries (e ∷ es) t = by_uid-fold_entries es (add_user e t)

pub by_gid-fold_entries :
    (es : List GroupEntry) (t : GroupTable)
    → (fold_entries add_group es t).by_gid
      ≡ add_all ◌==◌ group_entry_eq (λ e. e.gid) ==_iff es t.by_gid
unfolding fold_entries add_group add_all
by_gid-fold_entries [] t = refl
by_gid-fold_entries (e ∷ es) t = by_gid-fold_entries es (add_group e t)

-- What a resolver says of a number, from what the entries say of it.
unfoldable pub answer_name :
    {E : Type 0} → (E → Text) → Text → Text → ℕ → Answer E → Result Text Text
answer_name name what path n missing = err (not_present what (itoa (pos n)) path)
answer_name name what path n several =
    err (what ++ (codes " " ++ (itoa (pos n) ++ (codes " is ambiguous in " ++ path))))
answer_name name what path n (single e) = ok (name e)

pub require_name-lookup_by_number :
    {E : Type 0} (name : E → Text) (what path : Text) (index : KeyIndex ℕ E) (n : ℕ)
    → require_name what path n (lookup_by_number name what path index n)
      ≡ answer_name name what path n (looked_up (is_ambiguous ◌==◌ n index) (find ◌==◌ n index))
unfolding require_name lookup_by_number answer_name
require_name-lookup_by_number name what path index n = ground arith

-- The entries that a file has for a resolver.
unfoldable pub file_entries :
    {E : Type 0} → (Text → Text → Result Text E) → Text → Result Text Scan → Result Text (List E)
file_entries parse path (err e) = err (codes "unable to read " ++ (path ++ (codes ": " ++ e)))
file_entries parse path (ok scan) = elim (entries_of parse path 0 scan.lines) [
  | err e ↦ err e
  | ok es ↦ elim scan.failure [
    | none ↦ ok es
    | some e ↦ err (codes "unable to scan " ++ (path ++ (codes ": " ++ e)))
  ]
]

pub scan_file-eq :
    {E T : Type 0} (parse : Text → Text → Result Text E) (add : E → T → T) (empty : T) (path : Text)
    (opened : Result Text Scan)
    → scan_file parse add empty path opened ≡ (elim (file_entries parse path opened) [
      | err e ↦ err e
      | ok es ↦ ok (fold_entries add es empty)
    ])
unfolding scan_file file_entries
scan_file-eq parse add empty path (err e) = refl
scan_file-eq parse add empty path (ok scan) =
    ground (arith, scan_lines-eq parse add path 0 scan.lines empty)

-- What the lines of a file say of a number: the name in its first entry, if the entries with this
-- number are all the same.
unfoldable pub name_in_file :
    {E : Type 0}
    → (Text → Text → Result Text E)
    → (E → Text)
    → (E → ℕ)
    → (E → E → Bool)
    → Text
    → Text
    → Result Text Scan
    → ℕ
    → Result Text Text
unfolding file_entries answer_name answer
name_in_file parse name number entry_eq what path opened n = elim (file_entries parse path opened) [
  | err e ↦ err e
  | ok es ↦ answer_name name what path n (answer (λ e. n == number e) entry_eq es)
]
