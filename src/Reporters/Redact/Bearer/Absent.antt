-- ===== src/Reporters/Redact/Bearer/Absent.antt =====
-- internal/reporters/evidence_sanitize.go: no bearer token is left in a redacted text.
use savk.Base.{
  ℕ, zero, suc, ◌≤◌, ◌≡◌, refl, sym, ◌⊎◌, Bool, true, false, not, ◌&&◌, [], ◌∷◌, ◌++◌, Option, none,
  some, length, arith, is_none, Option-cases, Bool-cases, inl, inr,
}
use savk.Text.{Text, codes}
use savk.Text.Regex.{
  Cursor, at_boundary, is_word_prev, is_word_next, is_word_byte, is_space, is_alphanumeric,
}
use savk.Reporters.Redact.{
  bearer_pattern, match_redaction, replace_from, replace_all, is_bearer_byte,
}
use savk.Reporters.Redact.Bearer.{token_step, folded_step}
use savk.Reporters.Redact.Bearer.Found.{behind_word, bearer_found, spaced, has_token}
use savk.Reporters.Redact.Bearer.Ends.{begins_word, match_redaction-IsEnd}
use savk.Reporters.Redact.Bearer.Gone.{
  at, redacted, mark, redacted-found, redacted-kept, redacted-nil, behind_word-redacted,
}

-- The pattern for bearer tokens matches at no place of the text, read from a place on.
unfoldable pub no_bearer : Option ℕ → Text → Bool
no_bearer prev [] = is_none (match_redaction bearer_pattern (at prev []))
no_bearer prev (c ∷ s) =
    is_none (match_redaction bearer_pattern (at prev (c ∷ s))) && no_bearer (some c) s

no_bearer-nil : (prev : Option ℕ) → no_bearer prev [] ≡ true
unfolding no_bearer behind_word codes
no_bearer-nil prev = ground (arith, bearer_found (at prev []), nowhere)
  where
    nowhere : behind_word (codes "bearer") [] ≡ false
    nowhere = refl

no_bearer-kept :
    (c : ℕ) (prev : Option ℕ) (s : Text)
    → is_none (match_redaction bearer_pattern (at prev (c ∷ s))) ≡ true
    → no_bearer (some c) s ≡ true
    → no_bearer prev (c ∷ s) ≡ true
unfolding no_bearer
no_bearer-kept c prev s h h' = rw (h, h') refl

-- What stands in front of a text in which the word with a token begins nowhere.
last : Option ℕ → Text → Option ℕ
last prev [] = prev
last prev (c ∷ l) = last (some c) l

wordless : Text → Text → Bool
wordless [] t = true
wordless (c ∷ l) t = not (behind_word (codes "bearer") (c ∷ (l ++ t))) && wordless l t

no_bearer-append :
    (l : Text) (prev : Option ℕ) (t : Text)
    → wordless l t ≡ true
    → no_bearer prev (l ++ t) ≡ no_bearer (last prev l) t
unfolding no_bearer wordless last
no_bearer-append [] prev t h = refl
no_bearer-append (c ∷ l) prev t h =
    ground (arith, bearer_found (at prev (c ∷ (l ++ t))), no_bearer-append l (some c) t)

wordless-mark : (t : Text) → wordless mark t ≡ true
unfolding wordless behind_word codes spaced has_token is_space token_step is_bearer_byte
    is_alphanumeric folded_step
wordless-mark t = refl

no_bearer-mark : (prev : Option ℕ) (t : Text) → no_bearer prev (mark ++ t) ≡ no_bearer (some b']') t
unfolding last codes
no_bearer-mark prev t = no_bearer-append mark prev t (wordless-mark t)

-- The two places are on the same side of a word, or no word begins.
Agree : Option ℕ → Option ℕ → Text → Type 0
Agree o p s = (is_word_prev o ≡ is_word_prev p) ⊎ (begins_word s ≡ false)

behind_word-kept :
    (n c : ℕ) (s : Text)
    → behind_word (codes "bearer") (c ∷ redacted n (some c) s) ≡ true
    → behind_word (codes "bearer") (c ∷ s) ≡ true
unfolding behind_word codes
behind_word-kept n c s h =
    let rest = behind_word-redacted (codes "earer") n (some c) s refl (ground arith) in ground arith

behind_word-begins :
    (c : ℕ) (s t : Text) → behind_word (codes "bearer") (c ∷ t) ≡ true → begins_word (c ∷ s) ≡ true
unfolding behind_word codes begins_word
behind_word-begins c s t h = ground arith

at_boundary-same :
    (o p : Option ℕ) (c : ℕ) (s t : Text)
    → is_word_prev p ≡ is_word_prev o
    → at_boundary (at o (c ∷ s)) ≡ at_boundary (at p (c ∷ t))
unfolding at_boundary is_word_next
at_boundary-same o p c s t h = rw h refl

-- A byte that is kept begins no match in the redacted text.
kept-none :
    (n : ℕ) (prev o : Option ℕ) (c : ℕ) (s : Text)
    → Agree o prev (c ∷ s)
    → match_redaction bearer_pattern (at prev (c ∷ s)) ≡ none
    → is_none (match_redaction bearer_pattern (at o (c ∷ redacted n (some c) s))) ≡ true
unfolding Agree
kept-none n prev o c s agree h = elim agree [
  | inl same ↦ ground (
    arith,
    at_boundary-same prev o c s (redacted n (some c) s) same,
    bearer_found (at prev (c ∷ s)),
    bearer_found (at o (c ∷ redacted n (some c) s)),
    behind_word-kept n c s,
  )
  | inr other ↦ ground (
    arith,
    bearer_found (at o (c ∷ redacted n (some c) s)),
    behind_word-begins c s (redacted n (some c) s),
  )
]

-- Behind the mark, no word begins that did not begin behind the match.
apart :
    (r : Cursor)
    → (is_word_prev r.prev && begins_word r.rest) ≡ false
    → Agree (some b']') r.prev r.rest
unfolding Agree
apart r h = elim (Bool-cases (is_word_prev r.prev)) [
  | inl inside ↦ inr (ground arith)
  | inr outside ↦ inl (unfold is_word_prev is_word_byte in sym outside)
]

no_bearer-redacted :
    (n : ℕ) (prev o : Option ℕ) (s : Text)
    → length s ≤ n
    → Agree o prev s
    → no_bearer o (redacted n prev s) ≡ true
unfolding Agree
no_bearer-redacted zero prev o [] h agree = unfold replace_from in no_bearer-nil o
no_bearer-redacted zero prev o (c ∷ s) h agree = absurd (omega arith)
no_bearer-redacted (suc n) prev o [] h agree = rw (redacted-nil (suc n) prev) (no_bearer-nil o)
no_bearer-redacted (suc n) prev o (c ∷ s) h agree =
    elim (Option-cases (match_redaction bearer_pattern (at prev (c ∷ s)))) [
      | inl ended ↦ rw (redacted-kept n prev c s ended) (
          no_bearer-kept c o (redacted n (some c) s) (kept-none n prev o c s agree ended)
            (no_bearer-redacted n (some c) (some c) s (omega arith) (inl refl)))
      | inr ((q, r), found) ↦
          let end = match_redaction-IsEnd (at prev (c ∷ s)) q r found in
          rw (redacted-found n prev (c ∷ s) q r found, no_bearer-mark o)
            (no_bearer-redacted n r.prev (some b']') r.rest (omega (arith, end.shorter))
              (apart r end.separate))
    ]

-- Behind the replacement of the bearer tokens of a text, the pattern for bearer tokens matches at no
-- place of it: not within what was kept, and not across the marks that were written.
pub no_bearer-replace_all : (s : Text) → no_bearer none (replace_all bearer_pattern s) ≡ true
unfolding replace_all Agree
no_bearer-replace_all s = no_bearer-redacted (length s) none none s (omega arith) (inl refl)
