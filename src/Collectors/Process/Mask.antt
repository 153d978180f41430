-- ===== src/Collectors/Process/Mask.antt =====
-- internal/collectors/identity.go: the capabilities that a mask of 64 bits names.
use savk.Base.{
  ℕ, zero, suc, ◌+◌, ◌≤◌, ◌<◌, ◌≡◌, refl, ap, Bool, true, false, not, ◌&&◌, List, [], ◌∷◌, some, ok,
  ◌==◌, arith, ==_iff, Bool-cases, inl, inr,
}
use savk.Text.{Text, text_eq, text_eq_iff, text_eq_refl, codes}
use savk.Text.Number.{itoa, decimal, digits_onto, parse_uint}
use savk.Text.Space.{trim_space}
use savk.Capabilities.{linux_capability_name, linux_capability_names}
use savk.Text.Order.{contains, contains-sort_strings}
use savk.Collectors.Process.{capability_name, has_bit, mask_names, parse_capability_mask}

-- The names of so many bits, from `bit` on.
names_from : ℕ → ℕ → List Text
unfolding capability_name
names_from zero bit = []
names_from (suc left) bit = capability_name bit ∷ names_from left (suc bit)

are_distinct : List Text → Bool
unfolding contains
are_distinct [] = true
are_distinct (x ∷ xs) = not (contains x xs) && are_distinct xs

contains-names_from :
    (left bit k : ℕ)
    → bit ≤ k
    → k < bit + left
    → contains (capability_name k) (names_from left bit) ≡ true
unfolding contains names_from
contains-names_from zero bit k low high = ground arith
contains-names_from (suc left) bit k low high = elim (Bool-cases (bit == k)) [
  | inl same ↦ rw ((==_iff bit k).0 same) (ground (arith, text_eq_refl (capability_name k)))
  | inr differs ↦ ground (arith, ==_iff bit k, contains-names_from left (suc bit) k)
]

-- Only names of bits are listed.
contains-mask_names-false :
    (x : Text) (mask left bit : ℕ)
    → contains x (names_from left bit) ≡ false
    → contains x (mask_names mask left bit) ≡ false
unfolding contains mask_names names_from
contains-mask_names-false x mask zero bit h = refl
contains-mask_names-false x mask (suc left) bit h =
    ground (arith, contains-mask_names-false x mask left (suc bit))

-- Where the names of the bits are distinct.
contains-mask_names :
    (mask left bit k : ℕ)
    → are_distinct (names_from left bit) ≡ true
    → bit ≤ k
    → k < bit + left
    → contains (capability_name k) (mask_names mask left bit) ≡ has_bit mask k
unfolding contains mask_names names_from are_distinct
contains-mask_names mask zero bit k distinct low high = ground arith
contains-mask_names mask (suc left) bit k distinct low high = elim (Bool-cases (bit == k)) [
  | inl same ↦ ground (
    arith,
    ap (has_bit mask) ((==_iff bit k).0 same),
    ap capability_name ((==_iff bit k).0 same),
    text_eq_refl (capability_name k),
    contains-mask_names-false (capability_name bit) mask left (suc bit),
  )
  | inr differs ↦ ground (
    arith,
    ==_iff bit k,
    text_eq_iff (capability_name k) (capability_name bit),
    contains-names_from left (suc bit) k,
    contains-mask_names mask left (suc bit) k,
  )
]

all_distinct : are_distinct (names_from 64 0) ≡ true
unfolding contains text_eq are_distinct names_from capability_name codes itoa decimal digits_onto
    linux_capability_name linux_capability_names
all_distinct = refl

-- A mask that is read names the bits that are set in it, below 64, and no other, whatever white space
-- stands around its digits.
pub contains-parse_capability_mask :
    (value : Text) (mask : ℕ) (names : List Text) (k : ℕ)
    → parse_uint 16 64 (trim_space value) ≡ some mask
    → parse_capability_mask value ≡ ok names
    → k < 64
    → contains (capability_name k) names ≡ has_bit mask k
unfolding parse_capability_mask
contains-parse_capability_mask value mask names k read parsed high = ground (
  arith,
  contains-mask_names mask 64 0 k all_distinct,
  contains-sort_strings (capability_name k) (mask_names mask 64 0),
)
