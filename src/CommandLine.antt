-- ===== src/CommandLine.antt =====
-- cmd/savk/main.go: which domains are run, and the prerequisites that are added.
pub mod Domains
pub mod Guarded
pub mod Behind
pub mod Paths
pub mod Build
pub mod Tools
pub mod Command
use savk.Base.{ℕ, Bool, true, false, ◌||◌, List, [], ◌∷◌, ◌++◌, if◌then◌else◌, is_empty}
use savk.Text.{Text, text_eq, codes}
use savk.Text.Order.{contains, sort_strings}
use savk.Text.Space.{trim_space}
use savk.Text.Ops.{split}
use savk.Contract.Schema.{Contract}
use savk.Engine.{Check}

-- The loop over the parts of the filter; `seen` has the keys that `domains` lists.
unfoldable pub filter_domains : List Text → List Text → List Text
filter_domains domains [] = domains
filter_domains domains (part ∷ parts) =
    let domain = trim_space part in
    let skip = filter_domains domains parts in
    let keep = filter_domains (domains ++ (domain ∷ [])) parts in
    if text_eq domain [] || contains domain domains then skip else keep

-- The domains that the contract has entries in.
unfoldable pub declared_domains : Contract → List Text
declared_domains cfg =
    (if is_empty cfg.paths then [] else codes "paths" ∷ [])
    ++ ((if is_empty cfg.identity then [] else codes "identity" ∷ [])
        ++ ((if is_empty cfg.sockets then [] else codes "sockets" ∷ [])
            ++ (if is_empty cfg.services then [] else codes "services" ∷ [])))

-- `selectedDomains`, which has no error
unfoldable pub selected_domains : Contract → Text → List Text
selected_domains cfg filter =
    if text_eq filter []
    then sort_strings (declared_domains cfg)
    else sort_strings (filter_domains [] (split filter b','))

-- `hasServiceBackedDomain`
unfoldable pub has_service_backed_domain : List Text → Bool
has_service_backed_domain domains =
    contains (codes "services") domains || contains (codes "identity") domains

-- `slices.Compact` of `x ∷ xs`: one of each run of equal elements stays.
unfoldable pub compact : Text → List Text → List Text
compact x [] = x ∷ []
compact x (y ∷ ys) = let rest = compact y ys in if text_eq x y then rest else x ∷ rest

module _ {W : Type 0} where
  -- `prerequisiteCheck`
  abbrev pub prerequisite_check : Text → Check W → Check W
  prerequisite_check prerequisite c = record c {
    prerequisites = compact prerequisite c.prerequisites;
  }

  -- `withPrerequisite`
  unfoldable pub with_prerequisite : Text → List (Check W) → List (Check W)
  with_prerequisite prerequisite [] = []
  with_prerequisite prerequisite (c ∷ cs) =
      prerequisite_check prerequisite c ∷ with_prerequisite prerequisite cs
