-- ===== src/Tests/Collecting.antt =====
-- Path checks over a filesystem with one file.
use savk.Base.{
  ◌%◌, ◌&&◌, is_none, ℕ, suc, ◌≡◌, refl, true, false, List, [], ◌∷◌, none, some, ok, err,
  if◌then◌else◌,
}
use savk.Text.{Text, text_eq, codes}
use savk.Evidence.{is_pass}
use savk.Contract.Schema.{PathSpec}
use savk.Contract.Field.{is_octal_mode}
use savk.Engine.{Context}
use savk.Collectors.Paths.{FileMode, PathHost, mode, octal_digits, mode_value, format_file_mode}
use savk.Collectors.Paths.Run.{run_path_check}
use savk.Collectors.Paths.Run.Modes.{format_file_mode-is_octal_mode, format_file_mode_injective}
use savk.Collectors.Paths.Run.Passing.{is_satisfied, run_path_check-is_pass}
use savk.Collectors.Preflight.{ProbeHost, run_preflight, is_systemd, run_preflight-is_pass}

abbrev file_mode : ℕ → FileMode
file_mode bits = record {
  bits = bits;
  setuid = true;
  setgid = false;
  sticky = false;
  is_regular = true;
  is_dir = false;
  is_socket = false;
  printed = codes "-rwsr-x---";
}

mode_printed : format_file_mode (file_mode 0o750) ≡ codes "04750"
unfolding format_file_mode mode_value octal_digits codes
mode_printed = refl

format_file_mode-is_octal_mode_example : is_octal_mode (format_file_mode (file_mode 0o750)) ≡ true
format_file_mode-is_octal_mode_example = format_file_mode-is_octal_mode (file_mode 0o750)

-- The type bits that `Perm` masks.
abbrev masked : FileMode
masked = file_mode 0o100750

printed_alike : format_file_mode (file_mode 0o750) ≡ format_file_mode masked
unfolding format_file_mode mode_value octal_digits
printed_alike = refl

format_file_mode_injective_example :
    ((file_mode 0o750).bits % 0o1000 ≡ masked.bits % 0o1000)
    × (((file_mode 0o750).setuid ≡ masked.setuid)
        × (((file_mode 0o750).setgid ≡ masked.setgid) × ((file_mode 0o750).sticky ≡ masked.sticky)))
format_file_mode_injective_example =
    format_file_mode_injective (file_mode 0o750) masked printed_alike

abbrev pub disk : PathHost ℕ
disk = record {
  lstat = λ path w.
      if text_eq path (codes "/a")
      then (
        ok (record { mode = file_mode 0o640; ownership = some (record { uid = 0; gid = 0 }) }),
        w,
      )
      else (
        err (record { is_not_exist = true; is_permission = false; message = codes "no such file" }),
        w,
      );
  resolved_path = λ path. path;
  user_name_by_uid = λ uid w. (ok (codes "root"), w);
  group_name_by_gid = λ gid w. (ok (codes "root"), w);
  passwd_path = codes "/etc/passwd";
  group_path = codes "/etc/group";
  now = λ w. (w, suc w);
  context_text = λ e. [];
}

abbrev spec : PathSpec
spec = record { owner = codes "root"; group = []; mode = codes "0640"; kind = [] }

abbrev paths : List (Text × PathSpec)
paths = (codes "/a", spec) ∷ (codes "/a.mode", spec) ∷ []

abbrev background : Context
background = record { failure = none; has_deadline = false }

run_path_check-is_pass_example :
    is_pass (run_path_check disk mode (codes "/a") spec background 5).0.status ≡ (
      is_none background.failure
      && is_satisfied disk mode spec (disk.lstat (codes "/a") 5).0 (disk.lstat (codes "/a") 5).1)
run_path_check-is_pass_example = run_path_check-is_pass disk mode (codes "/a") spec background 5

abbrev pub probe : ProbeHost ℕ
probe = record {
  pid1_comm = λ ctx w. (ok (codes "systemd"), w);
  now = λ w. (w, suc w);
  context_text = λ e. [];
}

run_preflight-is_pass_example :
    is_pass (run_preflight probe (codes "paths") (codes "linux-systemd") background 3).0.status ≡ (
      is_none background.failure
      && (text_eq (codes "linux-systemd") (codes "linux-systemd")
          && is_systemd (probe.pid1_comm background 3).0))
run_preflight-is_pass_example =
    run_preflight-is_pass probe (codes "paths") (codes "linux-systemd") background 3
