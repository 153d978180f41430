-- ===== src/CommandLine/Paths.antt =====
-- cmd/savk/main.go: the checks that `buildChecksForDomains` makes of the domain "paths".
use savk.Base.{
  ◌≡◌, refl, Bool, true, false, if◌then◌else◌, List, [], ◌++◌, reverse, ok, every, arith,
}
use savk.Text.{Text, text_eq, codes}
use savk.Text.Ops.{has_prefix}
use savk.Text.Distinct.{IsDistinct}
use savk.Contract.Schema.{Contract, keys}
use savk.Contract.Parse.{parse_bytes}
use savk.Contract.Parse.Distinct.{parse_bytes-HasDistinctKeys}
use savk.Engine.{Check, validate_checks}
use savk.Engine.Closed.{names}
use savk.Engine.Ordered.{IsOrdered, IsOrdered-if, validate_checks-IsOrdered}
use savk.Collectors.Naming.{text_eq-other, differ}
use savk.Collectors.Preflight.{ProbeHost}
use savk.Collectors.Ranks.{check_rank, rank_from_end}
use savk.Collectors.Paths.{PathHost, PathKind, kind_text, path_id}
use savk.Collectors.Paths.Run.{build_path_checks}
use savk.Collectors.Paths.Ids.{namespace_id, check_rank-path_id}
use savk.Collectors.Paths.Closed.{build_path_checks-IsOrdered, every-build_path_checks}
use savk.CommandLine.Behind.{
  behind_namespace, is_behind, behind_namespace-IsOrdered, every-behind_namespace,
}

-- The case "paths" of the loop; `host` stands for the path checker, which is rooted if a host root
-- is given.
unfoldable pub path_checks :
    {W : Type 0} → PathHost W → ProbeHost W → Text → Contract → List (Check W)
unfolding behind_namespace namespace_id
path_checks host probe host_root cfg =
    let checks = build_path_checks host cfg.paths in
    if text_eq host_root []
    then behind_namespace probe (codes "paths") namespace_id cfg.metadata.target checks
    else checks

no_namespace_kind :
    (k : PathKind)
    → differ (reverse (codes ".namespace")) (reverse (codes "." ++ kind_text k)) ≡ true
unfolding kind_text codes differ
no_namespace_kind k = ground arith

other_id : (p : Text) (k : PathKind) → text_eq namespace_id (path_id p k) ≡ false
unfolding namespace_id path_id codes
other_id p k =
    text_eq-other (codes "path.") (codes "__preflight__") p (codes ".namespace")
      (codes "." ++ kind_text k) (no_namespace_kind k)

path_id-is_behind : (p : Text) (k : PathKind) → is_behind namespace_id (path_id p k) ≡ true
path_id-is_behind p k = ground (arith, other_id p k, check_rank-path_id p k)

pub path_checks-IsOrdered :
    {W : Type 0} (host : PathHost W) (probe : ProbeHost W) (host_root : Text) (c : Contract)
    → IsDistinct (keys c.paths)
    → IsOrdered check_rank (path_checks host probe host_root c)
unfolding path_checks namespace_id codes text_eq check_rank rank_from_end has_prefix
path_checks-IsOrdered host probe host_root c d =
    let checks = build_path_checks host c.paths in
    let ordered = build_path_checks-IsOrdered host c.paths d in
    let behind = every-build_path_checks host (is_behind namespace_id) c.paths path_id-is_behind in
    IsOrdered-if check_rank (text_eq host_root [])
      (behind_namespace probe (codes "paths") namespace_id c.metadata.target checks) checks
      (behind_namespace-IsOrdered probe (codes "paths") namespace_id c.metadata.target checks refl
        refl behind ordered)
      ordered

-- For every contract that `ParseBytes` returns, with a host root or without, the path checks, which
-- stand behind the check of the namespace if there is no host root, pass the engine's validation.
validate_checks-path_checks :
    {W : Type 0} (host : PathHost W) (probe : ProbeHost W) (upper : Text → Text)
    (host_root input : Text) (c : Contract)
    → parse_bytes upper input ≡ ok c
    → (ordered : List (Check W)) × (validate_checks (path_checks host probe host_root c)
        ≡ ok ordered)
validate_checks-path_checks host probe upper host_root input c h =
    validate_checks-IsOrdered check_rank (path_checks host probe host_root c) (
      path_checks-IsOrdered host probe host_root c
        (parse_bytes-HasDistinctKeys upper input c h).paths)

pub has_prefix-path_checks :
    {W : Type 0} (host : PathHost W) (probe : ProbeHost W) (host_root : Text) (c : Contract)
    → every (λ x. has_prefix x (codes "path.")) (names (path_checks host probe host_root c)) ≡ true
unfolding path_checks namespace_id codes has_prefix path_id
has_prefix-path_checks host probe host_root c =
    let checks = build_path_checks host c.paths in
    let q : Text → Bool = λ x. has_prefix x (codes "path.") in
    let below = every-build_path_checks host q c.paths (λ p k. refl) in
    ground (
      arith,
      below,
      every-behind_namespace q probe (codes "paths") namespace_id c.metadata.target checks refl
          below,
    )
