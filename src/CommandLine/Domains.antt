-- ===== src/CommandLine/Domains.antt =====
-- What `selectedDomains` returns.
use savk.Base.{◌≡◌, not, ◌||◌, ◌&&◌, List, [], ◌∷◌, ◌++◌, map, if◌then◌else◌, is_empty, arith}
use savk.Text.{Text, text_eq, text_eq_iff, codes}
use savk.Text.Order.{
  contains, contains-append, contains-sort_strings, IsSorted, sort_strings-IsSorted,
}
use savk.Text.Space.{trim_space}
use savk.Text.Ops.{split}
use savk.Contract.Schema.{Contract}
use savk.Text.Distinct.{IsDistinct, IsDistinct-concat, sort_strings-IsDistinct}
use savk.CommandLine.{filter_domains, declared_domains, selected_domains}

filter_domains-IsDistinct :
    (ds parts : List Text) → IsDistinct ds → IsDistinct (filter_domains ds parts)
unfolding filter_domains
filter_domains-IsDistinct ds [] d = d
filter_domains-IsDistinct ds (part ∷ parts) d = ground (
  arith,
  filter_domains-IsDistinct ds parts d,
  filter_domains-IsDistinct (ds ++ (trim_space part ∷ [])) parts,
  IsDistinct-concat ds (trim_space part) d,
)

declared_domains-IsDistinct : (cfg : Contract) → IsDistinct (declared_domains cfg)
unfolding declared_domains contains text_eq codes
declared_domains-IsDistinct cfg = ground arith

contains-filter_domains :
    (d : Text) (ds parts : List Text)
    → contains d (filter_domains ds parts)
      ≡ (contains d ds || (not (text_eq d []) && contains d (map trim_space parts)))
unfolding filter_domains contains
contains-filter_domains d ds [] = ground arith
contains-filter_domains d ds (part ∷ parts) = ground (
  arith,
  contains-filter_domains d ds parts,
  contains-filter_domains d (ds ++ (trim_space part ∷ [])) parts,
  contains-append d ds (trim_space part ∷ []),
  text_eq_iff d (trim_space part),
)

-- The domains that are run stand in order, each once.
pub selected_domains-IsSorted :
    (cfg : Contract) (filter : Text)
    → IsSorted (selected_domains cfg filter) × IsDistinct (selected_domains cfg filter)
unfolding selected_domains
selected_domains-IsSorted cfg filter = ground (
  arith,
  sort_strings-IsSorted (declared_domains cfg),
  sort_strings-IsSorted (filter_domains [] (split filter b',')),
  sort_strings-IsDistinct (declared_domains cfg) (declared_domains-IsDistinct cfg),
  sort_strings-IsDistinct (filter_domains [] (split filter b','))
      (filter_domains-IsDistinct [] (split filter b',') tt),
)

contains-declared_domains :
    (d : Text) (cfg : Contract)
    → contains d (declared_domains cfg) ≡ (
        (text_eq d (codes "paths") && not (is_empty cfg.paths))
        || ((text_eq d (codes "services") && not (is_empty cfg.services))
            || ((text_eq d (codes "sockets") && not (is_empty cfg.sockets))
                || (text_eq d (codes "identity") && not (is_empty cfg.identity)))))
unfolding declared_domains contains
contains-declared_domains d cfg = ground arith

-- Without a filter, the domains that are run are those of "paths", "services", "sockets" and
-- "identity" that the contract has entries in; else they are the parts of the filter, without the
-- space around them, that are not empty.
pub contains-selected_domains :
    (d : Text) (cfg : Contract) (filter : Text)
    → contains d (selected_domains cfg filter) ≡ (
        if text_eq filter []
        then (text_eq d (codes "paths") && not (is_empty cfg.paths))
          || ((text_eq d (codes "services") && not (is_empty cfg.services))
              || ((text_eq d (codes "sockets") && not (is_empty cfg.sockets))
                  || (text_eq d (codes "identity") && not (is_empty cfg.identity))))
        else not (text_eq d []) && contains d (map trim_space (split filter b',')))
unfolding selected_domains contains
contains-selected_domains d cfg filter = ground (
  arith,
  contains-sort_strings d (declared_domains cfg),
  contains-declared_domains d cfg,
  contains-sort_strings d (filter_domains [] (split filter b',')),
  contains-filter_domains d [] (split filter b','),
)
