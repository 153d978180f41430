-- ===== src/CommandLine/Tools/Below.antt =====
-- cmd/savk/main.go: with a host root, the files of a contract are looked up below it.
use savk.Base.{◌≡◌, refl, true, false, List, [], ◌∷◌, ok}
use savk.Text.{Text, text_eq, codes}
use savk.Text.Ops.{has_prefix}
use savk.Text.FilePath.{is_abs, clean}
use savk.Contract.Schema.{PathSpec, SocketSpec, Contract}
use savk.Contract.Decode.Specs.{IsValidSocket, IsValidPath}
use savk.Contract.Parse.{parse_bytes}
use savk.Contract.Parse.Valid.{parse_bytes-IsValid}
use savk.Contract.Decode.Valid.{AllValid}
use savk.Collectors.Paths.{PathHost}
use savk.Collectors.Filesystem.{
  PathChecker, AccountHost, rooted, resolve_path, new_rooted_path_checker, lstat_path,
  resolved_path, path_checker_for, path_host,
}
use savk.Collectors.Filesystem.Within.{is_within, never_ascends, resolve_path-is_within}
use savk.CommandLine.Tools.{Tools, hosts_for}

-- The host asks the program's checker for `name` at a path below the root.
pub record LooksBelow {W : Type 0} (checker : PathChecker W) (root : Text) (host : PathHost W)
    (name : Text) : Type 0 where
  pub path : Text
  pub looked_up : (w : W) → host.lstat name w ≡ checker.lstat path w
  pub resolved : host.resolved_path name ≡ path
  pub within : is_within (clean root) path ≡ true
  pub never_above : never_ascends path ≡ true

AllValid-map :
    {A : Type 0} (P Q : Text → A → Type 0)
    → ((k : Text) (a : A) → P k a → Q k a)
    → (m : List (Text × A)) → AllValid P m
    → AllValid Q m
AllValid-map P Q f [] h = tt
AllValid-map P Q f ((k, a) ∷ m) h = (f k a h.0, AllValid-map P Q f m h.1)

is_abs-filled : (s : Text) → is_abs s ≡ true → text_eq s [] ≡ false
unfolding is_abs codes has_prefix text_eq
is_abs-filled [] h = cc
is_abs-filled (c ∷ s) h = refl

module _ {W : Type 0} (tools : Tools W) (root : Text) (abs_root : is_abs root ≡ true) where
  checker-rooted :
      path_checker_for root tools.path_checker
      ≡ rooted (new_rooted_path_checker root tools.path_checker)
  unfolding path_checker_for
  checker-rooted = rw (is_abs-filled root abs_root) refl

  path_host-LooksBelow :
      (accounts : AccountHost W) (name : Text)
      → is_abs name ≡ true
      → LooksBelow tools.path_checker root
          (path_host accounts
            (path_checker_for root tools.path_checker)
            tools.now
            tools.context_text)
          name
  unfolding path_host lstat_path resolved_path new_rooted_path_checker
  path_host-LooksBelow accounts name abs_name =
      let (within, never_above) = resolve_path-is_within root name abs_root abs_name in
      rw checker-rooted (record {
        path = resolve_path (clean root) name;
        looked_up = λ w. refl;
        resolved = refl;
        within = within;
        never_above = never_above;
      })

  -- For every contract that `ParseBytes` returns and every absolute host root: each path and each
  -- socket of the contract is looked up, by the program's own checker, at the clean root or at a path
  -- below it that has no component "..".
  pub hosts_for-LooksBelow :
      (upper : Text → Text) (input : Text) (c : Contract)
      → parse_bytes upper input ≡ ok c
      → AllValid
          (λ (k : Text) (s : PathSpec).
            LooksBelow tools.path_checker root (hosts_for tools root).path_host k)
          c.paths
        × AllValid
            (λ (k : Text) (s : SocketSpec).
              LooksBelow tools.path_checker root (hosts_for tools root).socket_host k)
            c.sockets
  unfolding hosts_for is_abs
  hosts_for-LooksBelow upper input c parsed =
      let valid = (parse_bytes-IsValid upper input c parsed).0 in
      (
        AllValid-map IsValidPath _ (λ k s v. path_host-LooksBelow tools.path_accounts k v.absolute)
            c.paths valid.paths,
        AllValid-map IsValidSocket _
            (λ k s v. path_host-LooksBelow tools.socket_accounts k v.absolute) c.sockets
            valid.sockets,
      )
