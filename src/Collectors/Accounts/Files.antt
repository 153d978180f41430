-- ===== src/Collectors/Accounts/Files.antt =====
-- internal/collectors/accounts.go: the passwd and group files, and the loops of `loadPasswd` and
-- `loadGroup` over their lines.
use savk.Base.{
  ℕ, suc, Bool, ◌&&◌, ◌||◌, List, [], ◌∷◌, ◌++◌, Option, none, some, Result, ok, err, ◌>>=◌,
  if◌then◌else◌, ◌==◌,
}
use savk.Base.Int.{pos}
use savk.Text.{Text, text_eq, codes}
use savk.Text.FilePath.{clean, join_paths}
use savk.Text.Number.{itoa, parse_uint}
use savk.Text.Ops.{has_prefix, split}
use savk.Text.Space.{trim_space}
use savk.Collectors.Accounts.Index.{KeyIndex, empty_index, add_entry}

pub record PasswdEntry : Type 0 where
  pub name : Text
  pub uid : ℕ
  pub gid : ℕ

pub record GroupEntry : Type 0 where
  pub name : Text
  pub gid : ℕ

pub record PasswdTable : Type 0 where
  pub by_uid : KeyIndex ℕ PasswdEntry
  pub by_name : KeyIndex Text PasswdEntry

pub record GroupTable : Type 0 where
  pub by_gid : KeyIndex ℕ GroupEntry
  pub by_name : KeyIndex Text GroupEntry

-- What a `bufio.Scanner` reads of an open file: the lines before its end or its failure, and the
-- text of `scanner.Err()`.
pub record Scan : Type 0 where
  pub lines : List Text
  pub failure : Option Text

-- The files of a resolver, with its paths, and texts that `fmt` and `strconv` make: `%q`, and the
-- error of `ParseUint` on a text that it refuses.
pub record AccountFiles (W : Type 0) : Type 0 where
  pub passwd_path : Text
  pub group_path : Text
  pub open_file : Text → W → Result Text Scan × W
  pub quoted : Text → Text
  pub uint_error : Text → Text

-- `NewAccountResolver`: the paths of the files, for a host root that may be empty.
unfoldable pub account_paths : Text → Text × Text
unfolding clean join_paths
account_paths root =
    let clean_root = clean root in
    if text_eq root [] then (codes "/etc/passwd", codes "/etc/group") else (
      join_paths (clean_root ∷ codes "etc" ∷ codes "passwd" ∷ []),
      join_paths (clean_root ∷ codes "etc" ∷ codes "group" ∷ []),
    )

-- `existing == entry`
unfoldable pub passwd_entry_eq : PasswdEntry → PasswdEntry → Bool
passwd_entry_eq a b = text_eq a.name b.name && (a.uid == b.uid && a.gid == b.gid)

unfoldable pub group_entry_eq : GroupEntry → GroupEntry → Bool
group_entry_eq a b = text_eq a.name b.name && a.gid == b.gid

-- `%s:%d`
abbrev pub at_line : Text → ℕ → Text
at_line path line_no = path ++ (codes ":" ++ itoa (pos line_no))

-- The numbers of an entry, in the message of `what`.
unfoldable pub number_field : (Text → Text) → Text → Text → Text → Result Text ℕ
number_field uint_error what place value = elim (parse_uint 10 32 value) [
  | some n ↦ ok n
  | none ↦
      err (
        codes "invalid " ++ (what ++ (codes " in " ++ (place ++ (codes ": " ++ uint_error value)))))
]

-- The fields of an entry: its name, and the parts from the third on.
unfoldable pub entry_fields : List Text → Option (Text × List Text)
entry_fields (name ∷ _ ∷ third ∷ rest) =
    if text_eq (trim_space name) [] then none else some (trim_space name, third ∷ rest)
entry_fields _ = none

-- A line of passwd that is trimmed, and neither empty nor a comment.
unfoldable pub parse_passwd_entry : (Text → Text) → Text → Text → Result Text PasswdEntry
unfolding number_field entry_fields
parse_passwd_entry uint_error place line = elim (entry_fields (split line b':')) [
  | some (name, uid ∷ gid ∷ _) ↦ do
    u ← number_field uint_error (codes "uid") place uid
    g ← number_field uint_error (codes "gid") place gid
    ok (record { name = name; uid = u; gid = g })
  | _ ↦ err (codes "invalid passwd entry at " ++ place)
]

unfoldable pub parse_group_entry : (Text → Text) → Text → Text → Result Text GroupEntry
unfolding number_field entry_fields
parse_group_entry uint_error place line = elim (entry_fields (split line b':')) [
  | some (name, gid ∷ _) ↦ do
    g ← number_field uint_error (codes "gid") place gid
    ok (record { name = name; gid = g })
  | _ ↦ err (codes "invalid group entry at " ++ place)
]

-- `line == "" || strings.HasPrefix(line, "#")`
abbrev pub is_skipped : Text → Bool
is_skipped line = text_eq line [] || has_prefix line (codes "#")

unfoldable pub add_user : PasswdEntry → PasswdTable → PasswdTable
unfolding passwd_entry_eq add_entry
add_user e t = record {
  by_uid = add_entry ◌==◌ passwd_entry_eq e.uid e t.by_uid;
  by_name = add_entry text_eq passwd_entry_eq e.name e t.by_name;
}

unfoldable pub add_group : GroupEntry → GroupTable → GroupTable
unfolding group_entry_eq add_entry
add_group e t = record {
  by_gid = add_entry ◌==◌ group_entry_eq e.gid e t.by_gid;
  by_name = add_entry text_eq group_entry_eq e.name e t.by_name;
}

-- The loop over the lines of a file behind line `n`, which stops at the first bad entry.
unfoldable pub scan_lines :
    {E T : Type 0}
    → (Text → Text → Result Text E)
    → (E → T → T)
    → Text
    → ℕ
    → List Text
    → T
    → Result Text T
scan_lines parse add path n [] t = ok t
scan_lines parse add path n (raw ∷ lines) t =
    let line = trim_space raw in
    let next = scan_lines parse add path (suc n) lines in
    if is_skipped line
    then next t
    else elim (parse (at_line path (suc n)) line) [ err e ↦ err e | ok entry ↦ next (add entry t) ]

-- The loop, and the error of the scanner behind it.
unfoldable pub scan_file :
    {E T : Type 0}
    → (Text → Text → Result Text E)
    → (E → T → T)
    → T
    → Text
    → Result Text Scan
    → Result Text T
unfolding scan_lines
scan_file parse add empty path (err e) =
    err (codes "unable to read " ++ (path ++ (codes ": " ++ e)))
scan_file parse add empty path (ok scan) = elim (scan_lines parse add path 0 scan.lines empty) [
  | err e ↦ err e
  | ok t ↦ elim scan.failure [
    | none ↦ ok t
    | some e ↦ err (codes "unable to scan " ++ (path ++ (codes ": " ++ e)))
  ]
]

abbrev pub empty_passwd : PasswdTable
empty_passwd = record { by_uid = empty_index; by_name = empty_index }

abbrev pub empty_group : GroupTable
empty_group = record { by_gid = empty_index; by_name = empty_index }

-- The body of `passwdOnce.Do` in `loadPasswd`
unfoldable pub load_passwd : {W : Type 0} → AccountFiles W → W → Result Text PasswdTable × W
unfolding scan_file parse_passwd_entry add_user
load_passwd files w =
    let (opened, w') = files.open_file files.passwd_path w in
    (
      scan_file (parse_passwd_entry files.uint_error) add_user empty_passwd files.passwd_path
          opened,
      w',
    )

-- The body of `groupOnce.Do` in `loadGroup`
unfoldable pub load_group : {W : Type 0} → AccountFiles W → W → Result Text GroupTable × W
unfolding scan_file parse_group_entry add_group
load_group files w =
    let (opened, w') = files.open_file files.group_path w in
    (
      scan_file (parse_group_entry files.uint_error) add_group empty_group files.group_path opened,
      w',
    )
