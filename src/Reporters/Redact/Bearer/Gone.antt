-- ===== src/Reporters/Redact/Bearer/Gone.antt =====
-- internal/reporters/evidence_sanitize.go: how a text begins when its bearer tokens are redacted.
use savk.Base.{
  ℕ, zero, suc, ◌==◌, ◌≡◌, refl, true, false, not, ◌||◌, ◌&&◌, [], ◌∷◌, ◌++◌, Option, none, some,
  arith, every, Option-cases, inl, inr,
}
use savk.Text.{Text, codes}
use savk.Text.Ops.{has_prefix}
use savk.Text.Regex.{Cursor, is_space, is_alphanumeric}
use savk.Reporters.Redact.{
  bearer_pattern, is_bearer_byte, match_redaction, replace_from, replacement,
}
use savk.Reporters.Redact.Bearer.{folded_step, token_step}
use savk.Reporters.Redact.Bearer.Found.{has_token, spaced, behind_word, bearer_found}

abbrev pub at : Option ℕ → Text → Cursor
at prev s = record { prev = prev; rest = s }

-- The text that is redacted from a place on.
abbrev pub redacted : ℕ → Option ℕ → Text → Text
redacted n prev s = replace_from n bearer_pattern (at prev s)

abbrev pub mark : Text
mark = codes "Bearer [REDACTED]"

pub redacted-found :
    (n : ℕ) (prev : Option ℕ) (s : Text) (q r : Cursor)
    → match_redaction bearer_pattern (at prev s) ≡ some (q, r)
    → redacted (suc n) prev s ≡ mark ++ redacted n r.prev r.rest
unfolding replace_from codes
redacted-found n prev s q r h =
    rw (h, replace_from) (unfold replacement bearer_pattern codes in refl)

pub redacted-kept :
    (n : ℕ) (prev : Option ℕ) (c : ℕ) (s : Text)
    → match_redaction bearer_pattern (at prev (c ∷ s)) ≡ none
    → redacted (suc n) prev (c ∷ s) ≡ c ∷ redacted n (some c) s
unfolding replace_from
redacted-kept n prev c s h = rw (h, replace_from) refl

pub redacted-nil : (n : ℕ) (prev : Option ℕ) → redacted n prev [] ≡ []
unfolding replace_from behind_word codes
redacted-nil zero prev = refl
redacted-nil (suc n) prev = elim (Option-cases (match_redaction bearer_pattern (at prev []))) [
  | inl ended ↦ rw (ended, replace_from) refl
  | inr (a, found) ↦ ground (arith, bearer_found (at prev []), nowhere)
]
  where
    nowhere : behind_word (codes "bearer") [] ≡ false
    nowhere = refl

-- Where the pattern matches, the text begins with the word, spaces and a token.
found-behind_word :
    (prev : Option ℕ) (s : Text) (q r : Cursor)
    → match_redaction bearer_pattern (at prev s) ≡ some (q, r)
    → behind_word (codes "bearer") s ≡ true
found-behind_word prev s q r h = ground (arith, bearer_found (at prev s))

module _ (n : ℕ) (prev : Option ℕ) where
  -- The three ways in which a redacted text begins.
  pub data Begins (s : Text) : Type 0 where
    unchanged : redacted n prev s ≡ s → Begins s
    kept :
        (m : ℕ) (c : ℕ) (t : Text)
        → s ≡ c ∷ t
        → n ≡ suc m
        → redacted n prev s ≡ c ∷ redacted m (some c) t
        → Begins s
    marked :
        (m : ℕ) (q r : Cursor)
        → behind_word (codes "bearer") s ≡ true
        → redacted n prev s ≡ mark ++ redacted m r.prev r.rest
        → Begins s

begins : (n : ℕ) (prev : Option ℕ) (s : Text) → Begins n prev s
begins zero prev s = unchanged (unfold replace_from in refl)
begins (suc n) prev [] = unchanged (redacted-nil (suc n) prev)
begins (suc n) prev (c ∷ s) =
    elim (Option-cases (match_redaction bearer_pattern (at prev (c ∷ s)))) [
      | inl ended ↦ kept n c s refl refl (redacted-kept n prev c s ended)
      | inr ((q, r), found) ↦
          marked n q r (found-behind_word prev (c ∷ s) q r found)
            (redacted-found n prev (c ∷ s) q r found)
    ]

-- A beginning without the capital letter of the mark is one of the text that was redacted.
prefix-redacted :
    (l : Text) (n : ℕ) (prev : Option ℕ) (s : Text)
    → every (λ c. not (c == b'B')) l ≡ true
    → has_prefix (redacted n prev s) l ≡ true
    → has_prefix s l ≡ true
unfolding has_prefix codes
prefix-redacted [] n prev s other h = refl
prefix-redacted (a ∷ l) n prev s other h = elim (begins n prev s) [
  | unchanged same ↦ rw same at h
  | kept m c t whole fuel begun ↦
      let h' = rw begun at h in
      let rest = prefix-redacted l m (some c) t (ground arith) (ground arith) in
      rw whole (ground arith)
  | marked m q r word begun ↦ let h' = rw begun at h in absurd (ground arith)
]

has_token-prefix :
    (c : ℕ) (s : Text)
    → has_token (c ∷ s) ≡ (
        is_bearer_byte c
        || ((c == 0xc5 && has_prefix s (0xbf ∷ []))
            || (c == 0xe2 && has_prefix s (0x84 ∷ 0xaa ∷ []))))
unfolding has_token token_step folded_step has_prefix
has_token-prefix c [] = ground arith
has_token-prefix c (d ∷ []) = ground arith
has_token-prefix c (d ∷ e ∷ s) = ground arith

has_token-redacted :
    (c m : ℕ) (prev : Option ℕ) (t : Text)
    → has_token (c ∷ redacted m prev t) ≡ true
    → has_token (c ∷ t) ≡ true
has_token-redacted c m prev t h = ground (
  arith,
  has_token-prefix c t,
  has_token-prefix c (redacted m prev t),
  prefix-redacted (0xbf ∷ []) m prev t refl,
  prefix-redacted (0x84 ∷ 0xaa ∷ []) m prev t refl,
)

-- A text that begins with the word begins with a token, which is no space.
behind_word-spaced : (s : Text) → behind_word (codes "bearer") s ≡ true → spaced s ≡ true
unfolding behind_word spaced codes is_space has_token token_step is_bearer_byte is_alphanumeric
behind_word-spaced [] h = absurd (ground arith)
behind_word-spaced (c ∷ s) h = ground arith

spaced-redacted :
    (n : ℕ) (prev : Option ℕ) (s : Text) → spaced (redacted n prev s) ≡ true → spaced s ≡ true
unfolding replace_from spaced
spaced-redacted zero prev s h = h
spaced-redacted (suc n) prev [] h = rw (redacted-nil (suc n) prev) at h
spaced-redacted (suc n) prev (c ∷ s) h =
    elim (Option-cases (match_redaction bearer_pattern (at prev (c ∷ s)))) [
      | inl ended ↦
          let h' = rw (redacted-kept n prev c s ended) at h in
          ground (arith, spaced-redacted n (some c) s, has_token-redacted c n (some c) s)
      | inr ((q, r), found) ↦ behind_word-spaced (c ∷ s) (found-behind_word prev (c ∷ s) q r found)
    ]

-- The rest of the word, spaces and a token stand in the text that was redacted, too.
pub behind_word-redacted :
    (ls : Text) (n : ℕ) (prev : Option ℕ) (s : Text)
    → every (λ l. not (l == b'b' || l == b'B')) ls ≡ true
    → behind_word ls (redacted n prev s) ≡ true
    → behind_word ls s ≡ true
unfolding behind_word codes is_space
behind_word-redacted [] n prev s other h = elim (begins n prev s) [
  | unchanged same ↦ rw same at h
  | kept m c t whole fuel begun ↦
      let h' = rw begun at h in rw whole (ground (arith, spaced-redacted m (some c) t))
  | marked m q r word begun ↦ let h' = rw begun at h in absurd (ground arith)
]
behind_word-redacted (l ∷ ls) n prev s other h = elim (begins n prev s) [
  | unchanged same ↦ rw same at h
  | kept m c t whole fuel begun ↦
      let h' = rw begun at h in
      let rest = behind_word-redacted ls m (some c) t (ground arith) (ground arith) in
      rw whole (ground arith)
  | marked m q r word begun ↦ let h' = rw begun at h in absurd (ground arith)
]
