-- ===== src/Collectors/Paths/Closed.antt =====
-- The path checks of a contract can be ordered.
use savk.Base.{◌≡◌, refl, Bool, true, List, [], ◌∷◌, ◌++◌, map, ok, every, arith, if◌then◌else◌}
use savk.Text.{Text, text_eq, codes}
use savk.Text.Order.{contains}
use savk.Text.Distinct.{IsDistinct}
use savk.Contract.Schema.{PathSpec, keys}
use savk.Engine.{Check, validate_checks}
use savk.Engine.Closed.{names}
use savk.Engine.Ordered.{IsOrdered, is_ranked, validate_checks-IsOrdered}
use savk.Collectors.Naming.{ident}
use savk.Collectors.Ranks.{check_rank}
use savk.Collectors.Build.Named.{Family, has_kind, are_distinct, every-build}
use savk.Collectors.Build.Rooted.{Rooted, build-IsOrdered}
use savk.Collectors.Paths.Ids.{kind_eq, path_naming, check_rank-path_id}
use savk.Collectors.Paths.{
  PathHost, PathKind, exists, type, mode, owner, group, path_id, path_kinds, path_prerequisites,
}
use savk.Collectors.Paths.Run.{checks_of, build_path_checks}

-- A kind, where the spec sets its field.
abbrev if_asked : Text → PathKind → List PathKind
if_asked field k = if text_eq field [] then [] else k ∷ []

kinds : PathSpec → List PathKind
kinds spec =
    exists
    ∷ (if_asked spec.kind type
        ++ (if_asked spec.mode mode ++ (if_asked spec.owner owner ++ if_asked spec.group group)))

kinds_distinct : (spec : PathSpec) → are_distinct kind_eq (kinds spec) ≡ true
unfolding are_distinct has_kind kind_eq kinds
kinds_distinct spec = ground arith

module _ {W : Type 0} (host : PathHost W) where
  abbrev block : Text → PathSpec → List (Check W)
  block path spec = checks_of host spec (path_kinds path spec)

  names-block :
      (path : Text) (spec : PathSpec)
      → names (block path spec) ≡ map (ident path_naming path) (kinds spec)
  unfolding checks_of path_kinds ident path_id kinds
  names-block path spec = ground arith

  family : Family path_naming block
  family = record { kinds = kinds; names_block = names-block; kinds_distinct = kinds_distinct }

  block-ranked :
      (known : List Text) (path : Text) (spec : PathSpec)
      → contains (path_id path exists) known ≡ true
      → every (is_ranked known check_rank) (block path spec) ≡ true
  unfolding checks_of path_kinds is_ranked path_prerequisites kind_eq
  block-ranked known path spec h = ground (
    arith,
    check_rank-path_id path exists,
    check_rank-path_id path type,
    check_rank-path_id path mode,
    check_rank-path_id path owner,
    check_rank-path_id path group,
  )

  block-Rooted : Rooted path_naming block check_rank
  unfolding family ident has_kind kind_eq kinds path_id codes text_eq
  block-Rooted = record {
    family = family;
    root = exists;
    rooted = λ spec. refl;
    named = λ path k. refl;
    ranked = block-ranked;
  }

  -- What holds of every ID of a path check.
  pub every-build_path_checks :
      (q : Text → Bool) (paths : List (Text × PathSpec))
      → ((path : Text) (k : PathKind) → q (path_id path k) ≡ true)
      → every q (names (build_path_checks host paths)) ≡ true
  unfolding path_id ident build_path_checks
  every-build_path_checks q paths h = every-build path_naming block family q paths h

  pub build_path_checks-IsOrdered :
      (paths : List (Text × PathSpec))
      → IsDistinct (keys paths)
      → IsOrdered check_rank (build_path_checks host paths)
  unfolding build_path_checks
  build_path_checks-IsOrdered paths d =
      build-IsOrdered path_naming block check_rank block-Rooted paths d

  -- The checks that `BuildPathChecks` makes of paths with distinct keys pass the engine's
  -- validation: they are put in an order.
  validate_checks-build_path_checks :
      (paths : List (Text × PathSpec))
      → IsDistinct (keys paths)
      → (ordered : List (Check W)) × (validate_checks (build_path_checks host paths) ≡ ok ordered)
  validate_checks-build_path_checks paths d =
      validate_checks-IsOrdered check_rank (build_path_checks host paths)
        (build_path_checks-IsOrdered paths d)
