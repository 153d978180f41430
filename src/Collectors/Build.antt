-- ===== src/Collectors/Build.antt =====
-- internal/collectors: the loop over the sorted keys in `BuildSocketChecks`,
-- `buildServiceChecksWithResolver` and `BuildIdentityChecks`.
pub mod Named
pub mod Rooted
use savk.Base.{List, [], ◌∷◌, ◌++◌}
use savk.Text.{Text}
use savk.Engine.{Check}

-- `block` are the checks of one entry.
unfoldable pub build :
    {S W : Type 0} → (Text → S → List (Check W)) → List (Text × S) → List (Check W)
build block [] = []
build block ((name, spec) ∷ entries) = block name spec ++ build block entries
