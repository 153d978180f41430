-- ===== src/Text/Ops.antt =====
-- The functions of Go's `strings` that the program calls, on bytes.
use savk.Base.{
  ℕ, Bool, true, false, ◌&&◌, ◌||◌, List, [], ◌∷◌, ◌++◌, Option, none, some, ◌==◌, if◌then◌else◌,
  length, drop,
}
use savk.Text.{Text}

-- `strings.HasPrefix`
unfoldable pub has_prefix : Text → Text → Bool
has_prefix s [] = true
has_prefix [] (p ∷ ps) = false
has_prefix (c ∷ s) (p ∷ ps) = c == p && has_prefix s ps

-- `strings.Contains`
unfoldable pub contains_text : Text → Text → Bool
unfolding has_prefix
contains_text [] t = has_prefix [] t
contains_text (c ∷ s) t = has_prefix (c ∷ s) t || contains_text s t

-- `strings.ContainsRune` for an ASCII byte
unfoldable pub contains_byte : Text → ℕ → Bool
contains_byte [] b = false
contains_byte (c ∷ s) b = c == b || contains_byte s b

-- The first piece and the others of `strings.Split`.
unfoldable pub split_first : Text → ℕ → Text × List Text
split_first [] b = ([], [])
split_first (c ∷ s) b =
    let (first, rest) = split_first s b in if c == b then ([], first ∷ rest) else (c ∷ first, rest)

-- `strings.Split`, by one ASCII byte
unfoldable pub split : Text → ℕ → List Text
unfolding split_first
split s b = let (first, rest) = split_first s b in first ∷ rest

-- `strings.Join`
unfoldable pub join : List Text → Text → Text
join [] sep = []
join (x ∷ []) sep = x
join (x ∷ y ∷ ys) sep = x ++ (sep ++ join (y ∷ ys) sep)

-- `strings.TrimLeft`, by one ASCII byte
unfoldable pub trim_left : Text → ℕ → Text
trim_left [] b = []
trim_left (c ∷ s) b = if c == b then trim_left s b else c ∷ s

-- `strings.TrimSuffix`, by one byte
unfoldable pub trim_suffix : Text → ℕ → Text
trim_suffix [] b = []
trim_suffix (c ∷ []) b = if c == b then [] else c ∷ []
trim_suffix (c ∷ d ∷ s) b = c ∷ trim_suffix (d ∷ s) b

-- `strings.TrimPrefix`
unfoldable pub trim_prefix : Text → Text → Text
unfolding has_prefix
trim_prefix s p = if has_prefix s p then drop (length p) s else s

-- `strings.Cut`, at one ASCII byte
unfoldable pub cut : Text → ℕ → Option (Text × Text)
cut [] b = none
cut (c ∷ s) b =
    let rest = cut s b in
    if c == b
    then some ([], s)
    else elim rest [ none ↦ none | some (before, after) ↦ some (c ∷ before, after) ]

-- `strings.ReplaceAll`, one byte by one byte
unfoldable pub replace_byte : Text → ℕ → ℕ → Text
replace_byte [] a b = []
replace_byte (c ∷ s) a b = (if c == a then b else c) ∷ replace_byte s a b

-- The length of a Go string, and its last byte.
unfoldable pub last_byte : Text → Option ℕ
last_byte [] = none
last_byte (c ∷ []) = some c
last_byte (c ∷ d ∷ s) = last_byte (d ∷ s)

-- `s[:len(s)-1]`
unfoldable pub drop_last : Text → Text
drop_last [] = []
drop_last (c ∷ []) = []
drop_last (c ∷ d ∷ s) = c ∷ drop_last (d ∷ s)
