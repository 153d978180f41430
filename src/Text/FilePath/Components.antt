-- ===== src/Text/FilePath/Components.antt =====
-- `filepath.Clean`: the components that it keeps.
use savk.Base.{ℕ, ◌≡◌, refl, ap, ◌∙◌, Bool, true, not, ◌&&◌, List, [], ◌∷◌, ◌++◌, every, arith}
use mathlib.Core.List.{append-nil, append_assoc}
use savk.Text.{Text, codes}
use savk.Text.Ops.{split_first, split, join, contains_byte}
use savk.Text.Split.{is_free, split-join}
use savk.Text.FilePath.{
  is_abs, is_dotdot, without_last, is_void, push_component, clean_from, components, clean,
  join_paths,
}

-- A component that names something: it is not empty, "." or "..", and holds no slash.
unfoldable pub is_proper : Text → Bool
is_proper c = not (is_void c) && not (is_dotdot c) && is_free b'/' c

split_first-free :
    (s : Text) (b : ℕ)
    → (is_free b (split_first s b).0 && every (is_free b) (split_first s b).1) ≡ true
unfolding split_first is_free contains_byte
split_first-free [] b = refl
split_first-free (c ∷ s) b = ground (arith, split_first-free s b)

pub split-free_pieces : (s : Text) (b : ℕ) → every (is_free b) (split s b) ≡ true
unfolding split
split-free_pieces s b = split_first-free s b

pub split-separated : (s t : Text) (b : ℕ) → split (s ++ (b ∷ t)) b ≡ split s b ++ split t b
unfolding split split_first
split-separated [] t b = ground arith
split-separated (c ∷ s) t b = ground (arith, split-separated s t b)

pub every-append :
    (p : Text → Bool) (xs ys : List Text) → every p (xs ++ ys) ≡ (every p xs && every p ys)
every-append p [] ys = refl
every-append p (x ∷ xs) ys = ground (arith, every-append p xs ys)

every-without_last :
    (p : Text → Bool) (cs : List Text) → every p cs ≡ true → every p (without_last cs) ≡ true
unfolding without_last
every-without_last p [] h = refl
every-without_last p (c ∷ []) h = refl
every-without_last p (c ∷ d ∷ cs) h = ground (arith, every-without_last p (d ∷ cs))

push_component-proper :
    (kept : List Text) (c : Text)
    → every is_proper kept ≡ true
    → is_free b'/' c ≡ true
    → every is_proper (push_component true kept c) ≡ true
unfolding push_component is_proper
push_component-proper kept c h free =
    ground (arith, every-append is_proper kept (c ∷ []), every-without_last is_proper kept)

clean_from-proper :
    (kept cs : List Text)
    → every is_proper kept ≡ true
    → every (is_free b'/') cs ≡ true
    → every is_proper (clean_from true kept cs) ≡ true
unfolding clean_from
clean_from-proper kept [] h free = h
clean_from-proper kept (c ∷ cs) h free =
    clean_from-proper (push_component true kept c) cs
      (push_component-proper kept c h (ground arith)) (ground arith)

-- The components of an absolute path are proper: none of them leads upwards.
pub components-proper :
    (path : Text) → is_abs path ≡ true → every is_proper (components path) ≡ true
unfolding components
components-proper path abs =
    rw abs (clean_from-proper [] (split path b'/') refl (split-free_pieces path b'/'))

clean_from-append :
    (rooted : Bool) (kept cs ds : List Text)
    → clean_from rooted kept (cs ++ ds) ≡ clean_from rooted (clean_from rooted kept cs) ds
unfolding clean_from
clean_from-append rooted kept [] ds = refl
clean_from-append rooted kept (c ∷ cs) ds =
    clean_from-append rooted (push_component rooted kept c) cs ds

push_component-kept :
    (rooted : Bool) (kept : List Text) (c : Text)
    → is_proper c ≡ true
    → push_component rooted kept c ≡ kept ++ (c ∷ [])
unfolding push_component is_proper
push_component-kept rooted kept c h = ground arith

-- Proper components are all kept.
clean_from-kept :
    (rooted : Bool) (kept cs : List Text)
    → every is_proper cs ≡ true
    → clean_from rooted kept cs ≡ kept ++ cs
unfolding clean_from
clean_from-kept rooted kept [] h = simp append-nil
clean_from-kept rooted kept (c ∷ cs) h =
    rw (push_component-kept rooted kept c (ground arith))
      (clean_from-kept rooted (kept ++ (c ∷ [])) cs (ground arith) ∙ append_assoc kept (c ∷ []) cs)

pub every-free_of_proper :
    (cs : List Text) → every is_proper cs ≡ true → every (is_free b'/') cs ≡ true
unfolding is_proper
every-free_of_proper [] h = refl
every-free_of_proper (c ∷ cs) h = ground (arith, every-free_of_proper cs)

-- A text of joined components is split into them, but that none are split into an empty one.
clean_from-split-join :
    (kept cs : List Text)
    → every is_proper cs ≡ true
    → clean_from true kept (split (join cs (b'/' ∷ [])) b'/') ≡ kept ++ cs
unfolding clean_from
clean_from-split-join kept [] h = unfold split split_first join push_component in simp append-nil
clean_from-split-join kept (c ∷ cs) h =
    rw (split-join c cs b'/' (every-free_of_proper (c ∷ cs) h))
      (clean_from-kept true kept (c ∷ cs) h)

-- The path from the root through the components.
unfoldable pub rooted_path : List Text → Text
rooted_path cs = b'/' ∷ join cs (b'/' ∷ [])

pub clean-rooted_path :
    (path : Text) → is_abs path ≡ true → clean path ≡ rooted_path (components path)
unfolding clean rooted_path
clean-rooted_path path abs = rw abs refl

components-slash : (t : Text) → components (b'/' ∷ t) ≡ clean_from true [] (split t b'/')
unfolding components is_abs split split_first codes push_component
components-slash t = refl

components-rooted_path :
    (cs ds : List Text)
    → every is_proper cs ≡ true
    → every is_proper ds ≡ true
    → components (rooted_path cs ++ (b'/' ∷ join ds (b'/' ∷ []))) ≡ cs ++ ds
unfolding rooted_path
components-rooted_path cs ds hc hd =
    let c = join cs (b'/' ∷ []) in
    let d = join ds (b'/' ∷ []) in
    rw
      (
        components-slash (c ++ (b'/' ∷ d)),
        split-separated c d b'/',
        clean_from-append true [] (split c b'/') (split d b'/'),
        clean_from-split-join [] cs hc,
      )
      (clean_from-split-join cs ds hd)

is_abs-rooted_path : (cs : List Text) (t : Text) → is_abs (rooted_path cs ++ t) ≡ true
unfolding rooted_path is_abs codes
is_abs-rooted_path cs t = refl

-- Joining two such paths puts the components of one behind those of the other.
pub join_paths-rooted_path :
    (cs ds : List Text)
    → every is_proper cs ≡ true
    → every is_proper ds ≡ true
    → join_paths (rooted_path cs ∷ join ds (b'/' ∷ []) ∷ []) ≡ rooted_path (cs ++ ds)
unfolding join_paths join rooted_path
join_paths-rooted_path cs ds hc hd =
    rw
      (clean-rooted_path (rooted_path cs ++ (b'/' ∷ join ds (b'/' ∷ [])))
        (is_abs-rooted_path cs (b'/' ∷ join ds (b'/' ∷ []))))
      (ap rooted_path (components-rooted_path cs ds hc hd))
