-- ===== src/Text/FilePath.antt =====
-- `path/filepath` on Linux: `IsAbs`, `Clean` and `Join`.
pub mod Components
use savk.Base.{Bool, true, false, not, ◌||◌, List, [], ◌∷◌, ◌++◌, if◌then◌else◌, is_empty}
use savk.Text.{Text, text_eq, codes}
use savk.Text.Ops.{has_prefix, split, join}

-- `filepath.IsAbs`
unfoldable pub is_abs : Text → Bool
unfolding has_prefix codes
is_abs path = has_prefix path (codes "/")

-- The component ".."
unfoldable pub is_dotdot : Text → Bool
unfolding codes text_eq
is_dotdot c = text_eq c (codes "..")

unfoldable pub ends_in_dotdot : List Text → Bool
ends_in_dotdot [] = false
ends_in_dotdot (c ∷ []) = is_dotdot c
ends_in_dotdot (c ∷ d ∷ cs) = ends_in_dotdot (d ∷ cs)

unfoldable pub without_last : List Text → List Text
without_last [] = []
without_last (c ∷ []) = []
without_last (c ∷ d ∷ cs) = c ∷ without_last (d ∷ cs)

-- An empty component, or "."
unfoldable pub is_void : Text → Bool
unfolding codes text_eq
is_void c = is_empty c || text_eq c (codes ".")

-- What `Clean` makes of the components that it has kept and the next one.
unfoldable pub push_component : Bool → List Text → Text → List Text
unfolding is_void is_dotdot ends_in_dotdot without_last
push_component rooted kept c =
    if is_void c
    then kept
    else if not (is_dotdot c)
    then kept ++ (c ∷ [])
    else if not (is_empty kept || ends_in_dotdot kept)
    then without_last kept
    else if rooted
    then kept
    else kept ++ (c ∷ [])

unfoldable pub clean_from : Bool → List Text → List Text → List Text
unfolding push_component
clean_from rooted kept [] = kept
clean_from rooted kept (c ∷ cs) = clean_from rooted (push_component rooted kept c) cs

-- The components of a path that `Clean` keeps.
unfoldable pub components : Text → List Text
unfolding is_abs clean_from split
components path = clean_from (is_abs path) [] (split path b'/')

-- `filepath.Clean`
unfoldable pub clean : Text → Text
unfolding components join
clean path =
    let kept = components path in
    if is_abs path
    then b'/' ∷ join kept (b'/' ∷ [])
    else if is_empty kept
    then codes "."
    else join kept (b'/' ∷ [])

-- `filepath.Join`: the elements from the first one that is not empty.
unfoldable pub join_paths : List Text → Text
unfolding clean join
join_paths [] = []
join_paths (path ∷ paths) =
    if is_empty path then join_paths paths else clean (join (path ∷ paths) (b'/' ∷ []))
