-- ===== src/Collectors/Filesystem.antt =====
-- internal/collectors/filesystem.go and interfaces.go: what a check of a file looks files up with, and
-- the checker below a host root.
pub mod Within
use savk.Base.{Bool, Option, none, some, List, [], ◌∷◌, ◌≡◌, Result, if◌then◌else◌}
use savk.Text.{Text, text_eq, codes}
use savk.Text.FilePath.{clean, join_paths}
use savk.Text.Ops.{trim_prefix}
use savk.Evidence.{Time}
use savk.Engine.{ContextError}
use savk.Collectors.Paths.{FileInfo, StatError, PathHost}
use savk.Collectors.Accounts.{Cell, Loaded, AccountResolver, account_resolver}
use savk.Collectors.Accounts.Files.{Scan, account_paths}

-- The interface `PathChecker`
pub record PathChecker (W : Type 0) : Type 0 where
  pub stat : Text → W → Result StatError FileInfo × W
  pub lstat : Text → W → Result StatError FileInfo × W

pub record RootedPathChecker (W : Type 0) : Type 0 where
  pub root : Text
  pub base : PathChecker W

-- A value of the type `PathChecker`, as type switches see it: a `RootedPathChecker`, or another one,
-- which resolves no path.
pub data AnyPathChecker (W : Type 0) : Type 0 where
  plain : PathChecker W → AnyPathChecker W
  rooted : RootedPathChecker W → AnyPathChecker W

-- `RootedPathChecker.ResolvePath`, for the root of the checker
unfoldable pub resolve_path : Text → Text → Text
unfolding trim_prefix codes
resolve_path root name =
    let cleaned = clean name in
    if text_eq cleaned (codes "/")
    then root
    else join_paths (root ∷ trim_prefix cleaned (codes "/") ∷ [])

-- What `NewAccountResolver` makes a resolver of, but the root: how files are read, the texts of
-- `AccountFiles`, and the object itself.
pub record AccountHost (W : Type 0) : Type 0 where
  pub open_file : Text → W → Result Text Scan × W
  pub quoted : Text → Text
  pub uint_error : Text → Text
  pub loaded : Cell Loaded W

module _ {W : Type 0} where
  -- `NewRootedPathChecker`
  unfoldable pub new_rooted_path_checker : Text → PathChecker W → RootedPathChecker W
  new_rooted_path_checker root base = record { root = clean root; base = base }

  -- `RootedPathChecker.Stat` and the method `Stat` of another checker
  unfoldable pub stat_path : AnyPathChecker W → Text → W → Result StatError FileInfo × W
  unfolding resolve_path
  stat_path (plain checker) name w = checker.stat name w
  stat_path (rooted checker) name w = checker.base.stat (resolve_path checker.root name) w

  -- `RootedPathChecker.Lstat` and the method `Lstat` of another checker
  unfoldable pub lstat_path : AnyPathChecker W → Text → W → Result StatError FileInfo × W
  unfolding resolve_path
  lstat_path (plain checker) name w = checker.lstat name w
  lstat_path (rooted checker) name w = checker.base.lstat (resolve_path checker.root name) w

  -- `resolvedPath`
  unfoldable pub resolved_path : AnyPathChecker W → Text → Text
  unfolding resolve_path
  resolved_path (plain checker) name = name
  resolved_path (rooted checker) name = resolve_path checker.root name

  -- `NewAccountResolver`
  unfoldable pub new_account_resolver : AccountHost W → Text → AccountResolver W
  unfolding account_paths
  new_account_resolver host root =
      let (passwd_path, group_path) = account_paths root in
      account_resolver
        (record {
          passwd_path = passwd_path;
          group_path = group_path;
          open_file = host.open_file;
          quoted = host.quoted;
          uint_error = host.uint_error;
        })
        host.loaded

  -- `accountResolverForPathChecker`
  unfoldable pub account_resolver_for_path_checker :
      AccountHost W → AnyPathChecker W → AccountResolver W
  unfolding new_account_resolver
  account_resolver_for_path_checker host (plain checker) = new_account_resolver host []
  account_resolver_for_path_checker host (rooted checker) = new_account_resolver host checker.root

  -- What `BuildPathChecks` and `BuildSocketChecks` give their checks.
  unfoldable pub path_host :
      AccountHost W → AnyPathChecker W → (W → Time × W) → (ContextError → Text) → PathHost W
  unfolding lstat_path resolved_path account_resolver_for_path_checker
  path_host accounts checker now context_text =
      let resolver = account_resolver_for_path_checker accounts checker in
      record {
        lstat = lstat_path checker;
        resolved_path = resolved_path checker;
        user_name_by_uid = resolver.user_name;
        group_name_by_gid = resolver.group_name;
        passwd_path = resolver.passwd;
        group_path = resolver.group;
        now = now;
        context_text = context_text;
      }

  -- `pathChecker` of `buildChecksForDomains`
  unfoldable pub path_checker_for : Text → PathChecker W → AnyPathChecker W
  unfolding new_rooted_path_checker
  path_checker_for host_root checker =
      if text_eq host_root []
      then plain checker
      else rooted (new_rooted_path_checker host_root checker)
