-- ===== src/Collectors/Ranks.antt =====
-- internal/collectors: a numbering of the IDs of all checks that falls along prerequisites. The check
-- of a namespace comes first, then the checks that something exists and of the state of a service.
use savk.Base.{ℕ, ◌≡◌, ap, ◌||◌, ◌++◌, reverse, if◌then◌else◌}
use savk.Text.{Text, codes}
use savk.Text.Ops.{has_prefix}
use savk.Collectors.Naming.{Naming, ident, reverse-ident}

-- On a reversed ID.
unfoldable pub rank_from_end : Text → ℕ
unfolding has_prefix codes
rank_from_end s =
    if has_prefix s (reverse (codes ".namespace"))
    then 0
    else if has_prefix s (reverse (codes ".exists")) || has_prefix s (reverse (codes ".state"))
    then 1
    else 2

unfoldable pub check_rank : Text → ℕ
unfolding rank_from_end
check_rank id = rank_from_end (reverse id)

pub check_rank-ident :
    {K : Type 0} (naming : Naming K) (p : Text) (k : K)
    → check_rank (ident naming p k)
      ≡ rank_from_end ((reverse (naming.suffix k) ++ reverse p) ++ reverse naming.prefix)
unfolding check_rank
check_rank-ident naming p k = ap rank_from_end (reverse-ident naming p k)
