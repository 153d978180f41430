-- ===== src/Contract/Decode/Sound.antt =====
-- What a decoded contract satisfies: every field has passed its check.
use savk.Base.{
  ℕ, ◌+◌, ◌≡◌, refl, Bool, true, false, List, [], ◌∷◌, Option, none, some, ◌⊎◌, inl, inr, ok,
  bind-eq-ok, every, arith, Option-cases,
}
use savk.Text.{Text, codes}
use savk.Text.Space.{is_blank}
use savk.Capabilities.{is_canonical}
use savk.Contract.Node.{Node, Entries, lookup_entry, ParseError}
use savk.Contract.Schema.{valid_restart_policy, valid_path_type}
use savk.Contract.Field.{
  DecodeResult, below, require_value, expect_string, expect_non_empty_string, optional_field,
  optional_text, check_capabilities, decode_capability_list, decode_string_list, is_octal_mode,
}
use savk.Contract.Decode.{require, decode_restart, decode_mode, decode_path_type}

pub require-true : (t : Bool) (e : ParseError) {u : Unit {0}} → require t e ≡ ok u → t ≡ true
require-true t e h = ground arith

optional_field-some :
    {A : Type 0} (es : Entries) (name : Text) (f : Node → DecodeResult A) {a : A}
    → optional_field es name f ≡ ok (some a)
    → (n : Node) × (f n ≡ ok a)
optional_field-some es name f {a} h = elim (Option-cases (lookup_entry es name)) [
  | inl e ↦ absurd (ground arith)
  | inr (n, e) ↦
      let (b, fb, hb) = bind-eq-ok (f n) (λ x. ok (some x)) (rw (e, optional_field) at h) in
      let same : b ≡ a = cc in (n, rw (← same) fb)
]

optional_text-cases :
    (es : Entries) (name : Text) (f : Node → DecodeResult Text) (s : Text)
    → optional_text es name f ≡ ok s
    → (s ≡ []) ⊎ ((n : Node) × (f n ≡ ok s))
optional_text-cases es name f s h = elim (Option-cases (lookup_entry es name)) [
  | inl e ↦ inl (let h' : ok [] ≡ ok s = rw (e, optional_text) at h in cc)
  | inr (n, e) ↦ inr (n, rw (e, optional_text) at h)
]

pub require_value-ok :
    (s : Text) (path : List Text) (t : Text)
    → require_value s path ≡ ok t
    → (t ≡ s) × (is_blank t ≡ false)
unfolding require_value
require_value-ok s path t h = ground arith

pub non_empty-ok :
    (n : Node) (path : List Text) (t : Text)
    → expect_non_empty_string n path ≡ ok t
    → is_blank t ≡ false
unfolding expect_non_empty_string
non_empty-ok n path t h =
    let (s, _, h') = bind-eq-ok (expect_string n path) _ h in (require_value-ok s path t h').1

-- A mode, restart policy or path type that is returned has passed its test.
pub decode_mode-ok :
    (path : List Text) (n : Node) (t : Text) → decode_mode path n ≡ ok t → is_octal_mode t ≡ true
unfolding decode_mode
decode_mode-ok path n t h =
    let (s, _, h') = bind-eq-ok (expect_string n (below path (codes "mode"))) _ h in
    let (u, passed, h'') = bind-eq-ok (require (is_octal_mode s) _) _ h' in
    let same : s ≡ t = cc in rw (← same) (require-true (is_octal_mode s) _ passed)

pub decode_restart-ok :
    (path : List Text) (n : Node) (t : Text)
    → decode_restart path n ≡ ok t
    → valid_restart_policy t ≡ true
unfolding decode_restart
decode_restart-ok path n t h =
    let (s, _, h') = bind-eq-ok (expect_string n (below path (codes "restart"))) _ h in
    let (u, passed, h'') = bind-eq-ok (require (valid_restart_policy s) _) _ h' in
    let same : s ≡ t = cc in rw (← same) (require-true (valid_restart_policy s) _ passed)

pub decode_path_type-ok :
    (path : List Text) (n : Node) (t : Text)
    → decode_path_type path n ≡ ok t
    → valid_path_type t ≡ true
unfolding decode_path_type
decode_path_type-ok path n t h =
    let (s, _, h') = bind-eq-ok (expect_string n (below path (codes "type"))) _ h in
    let (u, passed, h'') = bind-eq-ok (require (valid_path_type s) _) _ h' in
    let same : s ≡ t = cc in rw (← same) (require-true (valid_path_type s) _ passed)

check_capabilities-ok :
    (upper : Text → Text) (i : ℕ) (vs path : List Text) {u : Unit {0}}
    → check_capabilities upper i vs path ≡ ok u
    → every is_canonical vs ≡ true
unfolding check_capabilities
check_capabilities-ok upper i [] path h = refl
check_capabilities-ok upper i (v ∷ vs) path h =
    ground (arith, check_capabilities-ok upper (i + 1) vs path)

pub decode_capability_list-ok :
    (upper : Text → Text) (n : Node) (path vs : List Text)
    → decode_capability_list upper n path ≡ ok vs
    → every is_canonical vs ≡ true
unfolding decode_capability_list
decode_capability_list-ok upper n path vs h =
    let (ws, _, h') = bind-eq-ok (decode_string_list n path) _ h in
    let (u, passed, h'') = bind-eq-ok (check_capabilities upper 0 ws path) _ h' in
    let same : ws ≡ vs = cc in rw (← same) (check_capabilities-ok upper 0 ws path passed)

-- What is asked of an optional value.
abbrev pub IfSome {ℓ} : {A : Type ℓ} → (A → Type 0) → Option A → Type 0
IfSome P none = Unit
IfSome P (some a) = P a

-- A text field is left empty, or satisfies what is asked.
abbrev pub IfSet : (Text → Bool) → Text → Type 0
IfSet p s = (s ≡ []) ⊎ (p s ≡ true)

pub optional_field-IfSome :
    {A : Type 0} (P : A → Type 0) (es : Entries) (name : Text) (f : Node → DecodeResult A)
    (o : Option A)
    → ((n : Node) (a : A) → f n ≡ ok a → P a)
    → optional_field es name f ≡ ok o
    → IfSome P o
optional_field-IfSome P es name f none valid h = tt
optional_field-IfSome P es name f (some a) valid h =
    let (n, e) = optional_field-some es name f h in valid n a e

pub optional_text-IfSet :
    (p : Text → Bool) (es : Entries) (name : Text) (f : Node → DecodeResult Text) (s : Text)
    → ((n : Node) (t : Text) → f n ≡ ok t → p t ≡ true)
    → optional_text es name f ≡ ok s
    → IfSet p s
optional_text-IfSet p es name f s valid h = elim (optional_text-cases es name f s h) [
  | inl e ↦ inl e
  | inr (n, e) ↦ inr (valid n s e)
]
