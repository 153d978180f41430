-- ===== src/Collectors/Paths/Ids.antt =====
-- The IDs of path checks tell the path and the kind.
use savk.Base.{◌≡◌, ◌↔◌, Bool, true, false, ◌++◌, reverse, if◌then◌else◌, arith}
use savk.Text.{Text, codes}
use savk.Text.Ops.{has_prefix}
use savk.Collectors.Naming.{Naming, ident, differ}
use savk.Collectors.Ranks.{check_rank, check_rank-ident, rank_from_end}
use savk.Collectors.Paths.{PathKind, exists, type, mode, owner, group, kind_text, path_id}

unfoldable pub kind_eq : PathKind → PathKind → Bool
kind_eq exists exists = true
kind_eq type type = true
kind_eq mode mode = true
kind_eq owner owner = true
kind_eq group group = true
kind_eq _ _ = false

pub kind_eq_iff : (k l : PathKind) → (kind_eq k l ≡ true) ↔ (k ≡ l)
unfolding kind_eq
kind_eq_iff k l = ground arith

pub kinds_apart :
    (k l : PathKind)
    → kind_eq k l ≡ false
    → differ (reverse (codes "." ++ kind_text k)) (reverse (codes "." ++ kind_text l)) ≡ true
unfolding kind_eq kind_text codes differ
kinds_apart k l h = ground arith

abbrev pub path_naming : Naming PathKind
path_naming = record {
  prefix = codes "path.";
  suffix = λ k. codes "." ++ kind_text k;
  same = kind_eq;
  same_iff = kind_eq_iff;
  apart = kinds_apart;
}

pub check_rank-path_id :
    (p : Text) (k : PathKind) → check_rank (path_id p k) ≡ (if kind_eq k exists then 1 else 2)
unfolding path_id ident kind_eq rank_from_end kind_text codes has_prefix
check_rank-path_id p exists = check_rank-ident path_naming p exists
check_rank-path_id p type = check_rank-ident path_naming p type
check_rank-path_id p mode = check_rank-ident path_naming p mode
check_rank-path_id p owner = check_rank-ident path_naming p owner
check_rank-path_id p group = check_rank-ident path_naming p group

-- `PathNamespaceCheckID`
unfoldable pub namespace_id : Text
namespace_id = codes "path.__preflight__.namespace"
