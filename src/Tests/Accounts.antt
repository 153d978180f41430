-- ===== src/Tests/Accounts.antt =====
-- An account database whose world is what the resolver has loaded.
use savk.Collectors.Accounts.{lookup_by_number, require_name}
use savk.Text.Number.{parse_uint}
use savk.Text.Ops.{has_prefix, split}
use savk.Text.Space.{trim_space}
use savk.Text.{Text, text_eq}
use savk.Collectors.Accounts.Files.{load_passwd}
use savk.Base.{ℕ, ◌+◌, ◌≤◌, if◌then◌else◌, List, ◌≡◌, refl, [], ◌∷◌, none, ok}
use savk.Text.{codes}
use savk.Collectors.Accounts.Files.{
  AccountFiles, Scan, parse_passwd_entry, parse_group_entry, passwd_entry_eq, group_entry_eq,
}
use savk.Collectors.Accounts.{Cell, Loaded, user_name_by_uid, group_name_by_gid}
use savk.Collectors.Accounts.Names.{names_by_number-eq}
use savk.Collectors.Accounts.Entries.{name_in_file}
use savk.Collectors.Accounts.Once.{
  Lookup, user_name, primary_group, user_value, group_value, one_read, after_lookups,
  after_lookups-once,
}

abbrev scan : Scan
scan = record {
  lines =
      codes "# users" ∷ codes "root:x:0:0:root:/root:/bin/sh" ∷ codes "app:x:33:33::/:/bin/sh" ∷ [];
  failure = none;
}

abbrev files : AccountFiles Loaded
files = record {
  passwd_path = codes "/etc/passwd";
  group_path = codes "/etc/group";
  open_file = λ path w. (ok scan, w);
  quoted = λ s. s;
  uint_error = λ s. codes "invalid syntax";
}

abbrev cell : Cell Loaded Loaded
cell = record { get = λ w. w; set = λ s w. s }

abbrev unread : Loaded
unread = record { passwd = none; group = none }

names_by_number-eq_example :
    ((user_name_by_uid files cell 33 unread).0
      ≡ name_in_file
          (parse_passwd_entry files.uint_error)
          (λ e. e.name)
          (λ e. e.uid)
          passwd_entry_eq
          (codes "uid")
          files.passwd_path
          (files.open_file files.passwd_path unread).0
          33)
    × ((group_name_by_gid files cell 33 unread).0
        ≡ name_in_file
            (parse_group_entry files.uint_error)
            (λ e. e.name)
            (λ e. e.gid)
            group_entry_eq
            (codes "gid")
            files.group_path
            (files.open_file files.group_path unread).0
            33)
names_by_number-eq_example = names_by_number-eq files cell 33 unread refl refl

-- A world that lists the paths that have been opened.
abbrev Opened : Type 0
Opened = Loaded × List Text

abbrev opening : AccountFiles Opened
opening = record {
  passwd_path = codes "/etc/passwd";
  group_path = codes "/etc/group";
  open_file = λ path w. (ok scan, (w.0, path ∷ w.1));
  quoted = λ s. s;
  uint_error = λ s. codes "invalid syntax";
}

abbrev loaded : Cell Loaded Opened
loaded = record { get = λ w. w.0; set = λ s w. (s, w.1) }

abbrev count : Text → List Text → ℕ
count q [] = 0
count q (path ∷ paths) = count q paths + (if text_eq q path then 1 else 0)

abbrev lookups : List Lookup
lookups =
    primary_group (codes "app")
    ∷ user_name 33
    ∷ group_value (codes "33")
    ∷ user_value (codes "0")
    ∷ []

after_lookups-once_example :
    count (codes "/etc/passwd") (after_lookups opening loaded lookups (unread, [])).1
    ≤ count (codes "/etc/passwd") []
      + (one_read (codes "/etc/passwd") (codes "/etc/passwd")
          + one_read (codes "/etc/group") (codes "/etc/passwd"))
after_lookups-once_example =
    after_lookups-once opening loaded (λ q w. count q w.1)
      (record {
        opened = λ path q w. refl;
        kept = λ path w. refl;
        unread = λ l q w. refl;
        set = λ s w. refl;
      })
      (codes "/etc/passwd") lookups (unread, [])

app_name : (user_name_by_uid files cell 33 unread).0 ≡ ok (codes "app")
unfolding user_name_by_uid load_passwd text_eq trim_space codes has_prefix split parse_uint
    require_name lookup_by_number
app_name = refl
