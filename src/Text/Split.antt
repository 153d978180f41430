-- ===== src/Text/Split.antt =====
-- `strings.Split` and `strings.Join`: what has been joined is split again.
use savk.Base.{ℕ, ◌≡◌, refl, ◌==◌, Bool, true, false, not, ◌&&◌, List, [], ◌∷◌, ◌++◌, every, arith}
use savk.Text.{Text}
use savk.Text.Ops.{contains_byte, split_first, split, join, replace_byte}

-- No byte of the text is `b`.
unfoldable pub is_free : ℕ → Text → Bool
is_free b s = not (contains_byte s b)

pub is_free-append : (b : ℕ) (s t : Text) → is_free b (s ++ t) ≡ (is_free b s && is_free b t)
unfolding is_free contains_byte
is_free-append b [] t = refl
is_free-append b (c ∷ s) t = ground (arith, is_free-append b s t)

pub is_free-replace_byte :
    (s : Text) (a b : ℕ) → (b == a) ≡ false → is_free a (replace_byte s a b) ≡ true
unfolding is_free contains_byte replace_byte
is_free-replace_byte [] a b h = refl
is_free-replace_byte (c ∷ s) a b h = ground (arith, is_free-replace_byte s a b h)

pub is_free-replace_byte_other :
    (s : Text) (a b c : ℕ)
    → (b == c) ≡ false
    → is_free c s ≡ true
    → is_free c (replace_byte s a b) ≡ true
unfolding is_free contains_byte replace_byte
is_free-replace_byte_other [] a b c h free = refl
is_free-replace_byte_other (d ∷ s) a b c h free =
    ground (arith, is_free-replace_byte_other s a b c h)

pub split-first : (s t : Text) (b : ℕ) → is_free b s ≡ true → split (s ++ (b ∷ t)) b ≡ s ∷ split t b
unfolding is_free contains_byte split split_first
split-first [] t b free = ground arith
split-first (c ∷ s) t b free = ground (arith, split-first s t b)

pub split-line :
    (s t : Text) (b : ℕ) → is_free b s ≡ true → split ((s ++ (b ∷ [])) ++ t) b ≡ s ∷ split t b
unfolding is_free contains_byte split split_first
split-line [] t b free = ground arith
split-line (c ∷ s) t b free = ground (arith, split-line s t b)

pub split-free : (s : Text) (b : ℕ) → is_free b s ≡ true → split s b ≡ s ∷ []
unfolding is_free contains_byte split split_first
split-free [] b free = refl
split-free (c ∷ s) b free = ground (arith, split-free s b)

pub split-join :
    (x : Text) (xs : List Text) (b : ℕ)
    → every (is_free b) (x ∷ xs) ≡ true
    → split (join (x ∷ xs) (b ∷ [])) b ≡ x ∷ xs
unfolding join
split-join x [] b free = split-free x b (ground arith)
split-join x (y ∷ ys) b free =
    rw (split-first x (join (y ∷ ys) (b ∷ [])) b (ground arith), split-join y ys b (ground arith))
      refl

pub is_free-join :
    (xs : List Text) (a b : ℕ)
    → (a == b) ≡ false
    → every (is_free a) xs ≡ true
    → is_free a (join xs (b ∷ [])) ≡ true
unfolding join is_free contains_byte
is_free-join [] a b h free = refl
is_free-join (x ∷ []) a b h free = ground arith
is_free-join (x ∷ y ∷ ys) a b h free =
    ground
      (arith, is_free-append a x ((b ∷ []) ++ join (y ∷ ys) (b ∷ [])), is_free-join (y ∷ ys) a b h)
