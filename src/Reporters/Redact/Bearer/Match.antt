-- ===== src/Reporters/Redact/Bearer/Match.antt =====
-- internal/reporters/evidence_sanitize.go: the match of the pattern for bearer tokens is that of the
-- runs over its parts.
use savk.Base.{
  ℕ, ◌-◌, ◌==◌, ◌≡◌, refl, ap, ◌∙◌, Bool, true, not, ◌||◌, [], ◌∷◌, Option, none, some, length,
  arith, if◌then◌else◌, every, Option-cases, inl, inr,
}
use savk.Text.{Text, codes}
use savk.Text.Regex.{
  Cursor, Regex, one_of, star, plus, match_at, at_boundary, word, letter, folded_class, is_space,
}
use savk.Text.Regex.Star.{go_on, star_at-run, star_at-run_total}
use savk.Reporters.Redact.{bearer_pattern, is_bearer_byte, match_redaction}
use savk.Reporters.Redact.Bearer.{
  one_step, byte_at-step, token-step, one_of-step, token_step, token_step-space, skip, token_end,
  spaced_token,
}

-- A match that has come to its end.
abbrev ends : Cursor → Cursor → Option (Cursor × Cursor)
ends q r = some (q, r)

equals-run :
    (p q : Cursor)
    → match_at (star (one_of (λ c. c == b'='))) p (ends q)
      ≡ some (q, skip (one_step (λ c. c == b'=')) p)
unfolding match_at skip
equals-run p q =
    star_at-run_total (λ p. one_step (λ c. c == b'=') p.rest) _
      (λ p k. byte_at-step (λ c. c == b'=') p.rest k) (length p.rest) p (ends q)
      (λ r. ((q, r), refl))

tokens-run :
    (p q : Cursor)
    → match_at
        (star (folded_class is_bearer_byte))
        p
        (λ r. match_at (star (one_of (λ c. c == b'='))) r (ends q))
      ≡ some (q, skip (one_step (λ c. c == b'=')) (skip token_step p))
unfolding match_at skip
tokens-run p q =
    star_at-run_total (λ p. token_step p.rest) (λ p k. match_at (folded_class is_bearer_byte) p k)
      token-step (length p.rest) p (λ r. match_at (star (one_of (λ c. c == b'='))) r (ends q))
      (λ r. ((q, skip (one_step (λ c. c == b'=')) r), equals-run r q))
    ∙ equals-run (skip token_step p) q

secret-end :
    (p q : Cursor) → match_at bearer_pattern.secret p (ends q) ≡ go_on (token_end p) (ends q)
unfolding bearer_pattern token_end folded_class match_at
secret-end p q =
    let goes_on : Cursor → Option (Cursor × Cursor) = λ r.
      match_at (star (folded_class is_bearer_byte)) r
        (λ r. match_at (star (one_of (λ c. c == b'='))) r (ends q)) in
    elim (Option-cases (token_step p.rest)) [
      | inl ended ↦ token-step p goes_on ∙ rw ended refl
      | inr (r, moved) ↦ token-step p goes_on ∙ rw moved (tokens-run r q)
    ]

-- What follows a space is no token.
token_end-space : (p q : Cursor) → one_step is_space p.rest ≡ some q → token_end p ≡ none
unfolding token_end
token_end-space p q h = rw (token_step-space p.rest q h) refl

spaced-end :
    (p : Cursor)
    → match_at (plus (one_of is_space)) p (λ q. match_at bearer_pattern.secret q (ends q))
      ≡ spaced_token p
unfolding spaced_token match_at skip
spaced-end p =
    let secret_at : Cursor → Option (Cursor × Cursor) =
      λ q. match_at bearer_pattern.secret q (ends q) in
    let goes_on : Cursor → Option (Cursor × Cursor) =
      λ q. match_at (star (one_of is_space)) q secret_at in
    elim (Option-cases (one_step is_space p.rest)) [
      | inl ended ↦ byte_at-step is_space p.rest goes_on ∙ rw ended refl
      | inr (q, moved) ↦
          let start = skip (one_step is_space) q in
          byte_at-step is_space p.rest goes_on
          ∙ rw moved (
              star_at-run (λ p. one_step is_space p.rest) (λ p k. match_at (one_of is_space) p k)
                (one_of-step is_space) (length q.rest) q secret_at
                (λ p r h. secret-end p p ∙ rw (token_end-space p r h) refl)
              ∙ secret-end start start)
    ]

-- The letters that are left of the word, and then spaces and a token.
unfoldable pub after_word : Text → Cursor → Option (Cursor × Cursor)
after_word [] p = spaced_token p
after_word (l ∷ ls) p = go_on (one_step (λ d. d == l || d == l - 32) p.rest) (λ q. after_word ls q)

abbrev is_plain_letter : ℕ → Bool
is_plain_letter l = not (l == b's' || l == b'k')

letter-plain : (l : ℕ) → is_plain_letter l ≡ true → letter l ≡ one_of (λ d. d == l || d == l - 32)
unfolding letter
letter-plain l h = ground arith

go_on-ext :
    {A : Type 0} (o : Option Cursor) (f g : Cursor → Option A)
    → ((q : Cursor) → f q ≡ g q)
    → go_on o f ≡ go_on o g
go_on-ext none f g same = refl
go_on-ext (some q) f g same = same q

word-end :
    (ls : Text) (p : Cursor)
    → every is_plain_letter ls ≡ true
    → match_at
        (word ls)
        p
        (λ q. match_at (plus (one_of is_space)) q (λ q. match_at bearer_pattern.secret q (ends q)))
      ≡ after_word ls p
unfolding word after_word match_at
word-end [] p h = spaced-end p
word-end (l ∷ ls) p h =
    let goes_on : Cursor → Option (Cursor × Cursor) = λ q.
      match_at (word ls) q (λ q.
        match_at (plus (one_of is_space)) q (λ q. match_at bearer_pattern.secret q (ends q))) in
    let first : Option Cursor = one_step (λ d. d == l || d == l - 32) p.rest in
    ap (λ (r : Regex). match_at r p goes_on) (letter-plain l (ground arith))
    ∙ byte_at-step (λ d. d == l || d == l - 32) p.rest goes_on
    ∙ go_on-ext first goes_on (λ q. after_word ls q) (λ q. word-end ls q (ground arith))

-- The match of the pattern at a place.
pub match_redaction-bearer :
    (p : Cursor)
    → match_redaction bearer_pattern p
      ≡ (if at_boundary p then after_word (codes "bearer") p else none)
unfolding match_redaction bearer_pattern match_at codes
match_redaction-bearer p =
    ap (λ (m : Option (Cursor × Cursor)). if at_boundary p then m else none)
      (word-end (codes "bearer") p refl)
