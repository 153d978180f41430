-- ===== src/Collectors/Filesystem/Within.antt =====
-- internal/collectors/filesystem.go: a checker below a host root stays below it.
use mathlib.Core.List.{append-nil, append_assoc}
use savk.Base.{
  ℕ, ◌≡◌, refl, ap, Bool, true, not, ◌||◌, List, [], ◌∷◌, ◌++◌, every, arith, if◌then◌else◌,
}
use savk.Text.{Text, text_eq, text_eq_refl, codes}
use savk.Text.Ops.{has_prefix, split_first, split, join, trim_prefix}
use savk.Text.Split.{split-join}
use savk.Text.FilePath.{is_abs, is_dotdot, is_void, components, clean, join_paths}
use savk.Text.FilePath.Components.{
  is_proper, components-proper, every-append, every-free_of_proper, clean-rooted_path, rooted_path,
  join_paths-rooted_path,
}
use savk.Collectors.Naming.{has_prefix-append}
use savk.Collectors.Filesystem.{resolve_path}

-- The path is `base`, or goes on behind it with a slash.
unfoldable pub is_within : Text → Text → Bool
is_within base path =
    text_eq path base
    || has_prefix path (if text_eq base (codes "/") then base else base ++ (b'/' ∷ []))

-- No component of the path is "..".
unfoldable pub never_ascends : Text → Bool
never_ascends path = every (λ c. not (is_dotdot c)) (split path b'/')

-- Behind the slash, a path through some components is not empty.
join-cons :
    (c : Text) (cs : List Text)
    → is_proper c ≡ true
    → (b : ℕ) × (t : Text) × (join (c ∷ cs) (b'/' ∷ []) ≡ b ∷ t)
unfolding join is_proper is_void
join-cons [] cs proper = cc
join-cons (b ∷ c) [] proper = (b, c, refl)
join-cons (b ∷ c) (d ∷ cs) proper = (b, c ++ (b'/' ∷ join (d ∷ cs) (b'/' ∷ [])), refl)

resolved-rooted_path :
    (cs ds : List Text)
    → every is_proper cs ≡ true
    → every is_proper ds ≡ true
    → (if text_eq (rooted_path ds) (codes "/")
        then rooted_path cs
        else join_paths (rooted_path cs ∷ trim_prefix (rooted_path ds) (codes "/") ∷ []))
      ≡ rooted_path (cs ++ ds)
unfolding rooted_path text_eq codes has_prefix trim_prefix join
resolved-rooted_path cs [] hc hd = simp append-nil
resolved-rooted_path cs (d ∷ ds) hc hd =
    let (b, t, eq) = join-cons d ds (ground arith) in
    let joined = join_paths-rooted_path cs (d ∷ ds) hc hd in rw eq (rw eq at joined)

resolve_path-rooted_path :
    (cs : List Text) (name : Text)
    → every is_proper cs ≡ true
    → is_abs name ≡ true
    → resolve_path (rooted_path cs) name ≡ rooted_path (cs ++ components name)
unfolding resolve_path
resolve_path-rooted_path cs name proper abs =
    rw (clean-rooted_path name abs)
      (resolved-rooted_path cs (components name) proper (components-proper name abs))

join-append :
    (c d : Text) (cs ds : List Text) (sep : Text)
    → join ((c ∷ cs) ++ (d ∷ ds)) sep ≡ join (c ∷ cs) sep ++ (sep ++ join (d ∷ ds) sep)
unfolding join
join-append c d [] ds sep = refl
join-append c d (e ∷ cs) ds sep = simp (join-append e d cs ds sep, append_assoc)

is_within_self : (path : Text) → is_within path path ≡ true
unfolding is_within
is_within_self path = ground (arith, text_eq_refl path)

within-slash : (t : Text) → is_within (rooted_path []) (b'/' ∷ t) ≡ true
unfolding is_within rooted_path join text_eq codes has_prefix
within-slash t = ground arith

rooted_path-within :
    (cs ds : List Text) → is_within (rooted_path cs) (rooted_path (cs ++ ds)) ≡ true
unfolding is_within rooted_path
rooted_path-within cs [] = simp append-nil (is_within_self (rooted_path cs))
rooted_path-within [] (d ∷ ds) = within-slash (join (d ∷ ds) (b'/' ∷ []))
rooted_path-within (c ∷ cs) (d ∷ ds) =
    let base = rooted_path (c ∷ cs) in
    let path = rooted_path ((c ∷ cs) ++ (d ∷ ds)) in
    let behind = join (d ∷ ds) (b'/' ∷ []) in
    let split_up : path ≡ base ++ (b'/' ∷ behind) =
      ap (b'/' ∷◌) (join-append c d cs ds (b'/' ∷ [])) in
    ground (
      arith,
      split_up,
      has_prefix-append base (b'/' ∷ behind),
      has_prefix-append (base ++ (b'/' ∷ [])) behind,
      append_assoc base (b'/' ∷ []) behind,
    )

every-not_dotdot :
    (cs : List Text) → every is_proper cs ≡ true → every (λ c. not (is_dotdot c)) cs ≡ true
unfolding is_proper
every-not_dotdot [] proper = refl
every-not_dotdot (c ∷ cs) proper = ground (arith, every-not_dotdot cs)

split-slash : (t : Text) → split (b'/' ∷ t) b'/' ≡ [] ∷ split t b'/'
unfolding split split_first
split-slash t = refl

rooted_path-never_ascends :
    (cs : List Text) → every is_proper cs ≡ true → never_ascends (rooted_path cs) ≡ true
unfolding never_ascends rooted_path is_dotdot
rooted_path-never_ascends [] proper = unfold split split_first join is_dotdot in refl
rooted_path-never_ascends (c ∷ cs) proper =
    rw
      (
        split-slash (join (c ∷ cs) (b'/' ∷ [])),
        split-join c cs b'/' (every-free_of_proper (c ∷ cs) proper),
      )
      (every-not_dotdot (c ∷ cs) proper)

-- Below an absolute root an absolute name is resolved to the clean root or a path below it, no
-- component of which is "..".
pub resolve_path-is_within :
    (root name : Text)
    → is_abs root ≡ true
    → is_abs name ≡ true
    → (is_within (clean root) (resolve_path (clean root) name) ≡ true)
      × (never_ascends (resolve_path (clean root) name) ≡ true)
resolve_path-is_within root name abs_root abs_name =
    let cs = components root in
    let ds = components name in
    let proper = components-proper root abs_root in
    rw (clean-rooted_path root abs_root, resolve_path-rooted_path cs name proper abs_name)
      (
        rooted_path-within cs ds,
        rooted_path-never_ascends (cs ++ ds)
            (ground (arith, every-append is_proper cs ds, proper, components-proper name abs_name)),
      )
