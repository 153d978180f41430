-- ===== src/Reporters/Redact/Bearer.antt =====
-- internal/reporters/evidence_sanitize.go: what the pattern for bearer tokens matches.
pub mod Match
pub mod Found
pub mod Ends
pub mod Gone
pub mod Absent
use savk.Base.{
  ℕ, zero, suc, ◌-◌, ◌+◌, ◌==◌, ◌≤◌, ◌<◌, ◌≡◌, refl, sym, ap, ◌∙◌, Bool, true, false, not, ◌||◌,
  ◌&&◌, List, [], ◌∷◌, ◌++◌, Option, none, some, length, arith, if◌then◌else◌, is_none, every,
  Option-cases, Bool-cases, inl, inr,
}
use savk.Text.{Text, codes}
use savk.Text.Ops.{has_prefix}
use savk.Text.Regex.{
  Cursor, Regex, empty, boundary, one_of, seq, alt, star, plus, star_at, byte_at, match_at,
  at_boundary, word, letter, literal, folded_class, is_space, is_alphanumeric,
}
use savk.Text.Regex.Star.{go_on, run, star_at-run, star_at-run_total, run-stops, length-run}
use savk.Reporters.Redact.{RedactionPattern, bearer_pattern, is_bearer_byte, match_redaction}

-- The place behind some bytes, of which `c` is the last.
abbrev pub behind : ℕ → Text → Cursor
behind c s = record { prev = some c; rest = s }

-- One byte of a class, and one rune of a bearer token.
unfoldable pub one_step : (ℕ → Bool) → Text → Option Cursor
one_step test [] = none
one_step test (c ∷ s) = if test c then some (behind c s) else none

-- The two runes above ASCII that `(?i)` folds to letters.
unfoldable pub folded_step : Text → Option Cursor
folded_step (a ∷ b ∷ c ∷ s) =
    if a == 0xc5 && b == 0xbf
    then some (behind b (c ∷ s))
    else if a == 0xe2 && (b == 0x84 && c == 0xaa)
    then some (behind c s)
    else none
folded_step (a ∷ b ∷ []) = if a == 0xc5 && b == 0xbf then some (behind b []) else none
folded_step _ = none

unfoldable pub token_step : Text → Option Cursor
token_step [] = none
token_step (c ∷ s) = if is_bearer_byte c then some (behind c s) else folded_step (c ∷ s)

ascii_only : (c : ℕ) → is_bearer_byte c ≡ true → ((c == 0xc5) ≡ false) × ((c == 0xe2) ≡ false)
unfolding is_bearer_byte is_alphanumeric
ascii_only c h = ground arith

folded_step-ascii : (c : ℕ) (s : Text) → is_bearer_byte c ≡ true → folded_step (c ∷ s) ≡ none
unfolding folded_step
folded_step-ascii c [] h = refl
folded_step-ascii c (b ∷ []) h = ground (arith, ascii_only c h)
folded_step-ascii c (b ∷ d ∷ s) h = ground (arith, ascii_only c h)

module _ {A : Type 0} where
  pub byte_at-step :
      (test : ℕ → Bool) (s : Text) (k : Cursor → Option A)
      → byte_at test s k ≡ go_on (one_step test s) k
  unfolding byte_at one_step
  byte_at-step test [] k = refl
  byte_at-step test (c ∷ s) k = ground arith

  pub one_of-step :
      (test : ℕ → Bool) (p : Cursor) (k : Cursor → Option A)
      → match_at (one_of test) p k ≡ go_on (one_step test p.rest) k
  unfolding match_at
  one_of-step test p k = byte_at-step test p.rest k

  -- What an alternative of a byte and the two runes does with the text.
  folded_at : (s : Text) (k : Cursor → Option A) → Option A
  unfolding byte_at
  folded_at s k = elim (byte_at (λ d. d == 0xc5) s (λ q. byte_at (λ d. d == 0xbf) q.rest k)) [
    | some a ↦ some a
    | none ↦
        byte_at (λ d. d == 0xe2) s
          (λ q. byte_at (λ d. d == 0x84) q.rest (λ r. byte_at (λ d. d == 0xaa) r.rest k))
  ]

  folded_at-step : (s : Text) (k : Cursor → Option A) → folded_at s k ≡ go_on (folded_step s) k
  unfolding folded_at folded_step
  folded_at-step [] k = refl
  folded_at-step (a ∷ []) k = ground arith
  folded_at-step (a ∷ b ∷ []) k = ground arith
  folded_at-step (a ∷ b ∷ c ∷ s) k = ground arith

  token_at-step :
      (s : Text) (k : Cursor → Option A)
      → elim (byte_at is_bearer_byte s k) [ some a ↦ some a | none ↦ folded_at s k ]
        ≡ go_on (token_step s) k
  unfolding token_step byte_at
  token_at-step [] k = unfold folded_at in refl
  token_at-step (c ∷ s) k = ground (arith, folded_at-step (c ∷ s) k, folded_step-ascii c s)

  pub token-step :
      (p : Cursor) (k : Cursor → Option A)
      → match_at (folded_class is_bearer_byte) p k ≡ go_on (token_step p.rest) k
  unfolding match_at folded_class literal folded_at
  token-step p k = token_at-step p.rest k

pub token_step-space : (s : Text) (q : Cursor) → one_step is_space s ≡ some q → token_step s ≡ none
unfolding one_step token_step is_space is_bearer_byte is_alphanumeric folded_step
token_step-space [] q h = cc
token_step-space (c ∷ []) q h = ground arith
token_step-space (c ∷ d ∷ []) q h = ground arith
token_step-space (c ∷ d ∷ e ∷ s) q h = ground arith

-- The runs of the pattern
unfoldable pub skip : (Text → Option Cursor) → Cursor → Cursor
skip next p = run (length p.rest) (λ q. next q.rest) p

-- `[A-Za-z0-9._~+/-]+=*` at a place: the place behind it.
unfoldable pub token_end : Cursor → Option Cursor
token_end p =
    go_on (token_step p.rest) (λ q. some (skip (one_step (λ c. c == b'=')) (skip token_step q)))

-- `\s+` and such a token: the places behind the two.
unfoldable pub spaced_token : Cursor → Option (Cursor × Cursor)
spaced_token p =
    go_on (one_step is_space p.rest) (λ q.
      let start = skip (one_step is_space) q in go_on (token_end start) (λ r. some (start, r)))
