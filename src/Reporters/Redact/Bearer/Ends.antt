-- ===== src/Reporters/Redact/Bearer/Ends.antt =====
-- internal/reporters/evidence_sanitize.go: where a match of the pattern for bearer tokens ends.
use savk.Base.{
  ℕ, zero, suc, ◌-◌, ◌==◌, ◌≤◌, ◌<◌, ◌≡◌, refl, Bool, false, ◌||◌, ◌&&◌, [], ◌∷◌, Option, none,
  some, length, arith, Option-cases, inl, inr,
}
use savk.Text.{Text, codes}
use savk.Text.Regex.{Cursor, is_space, is_word_prev, is_word_byte, is_alphanumeric}
use savk.Text.Regex.Star.{run, run-stops, length-run, run-ended, run-moved}
use savk.Reporters.Redact.{bearer_pattern, is_bearer_byte, match_redaction}
use savk.Reporters.Redact.Bearer.{one_step, folded_step, token_step, skip, token_end, spaced_token}
use savk.Reporters.Redact.Bearer.Match.{after_word, match_redaction-bearer}

-- The text begins with the first letter of the word.
unfoldable pub begins_word : Text → Bool
begins_word [] = false
begins_word (c ∷ s) = c == b'b' || c == b'B'

one_step-shorter :
    (test : ℕ → Bool) (p q : Cursor) → one_step test p.rest ≡ some q → length q.rest < length p.rest
one_step-shorter test p q h = on_text p.rest h
  where
    on_text : (s : Text) → one_step test s ≡ some q → length q.rest < length s
    on_text [] h = unfold one_step in cc
    on_text (c ∷ s) h = unfold one_step in ground arith

token_step-shorter : (p q : Cursor) → token_step p.rest ≡ some q → length q.rest < length p.rest
token_step-shorter p q h = on_text p.rest h
  where
    on_text : (s : Text) → token_step s ≡ some q → length q.rest < length s
    on_text [] h = unfold token_step in cc
    on_text (c ∷ []) h = unfold token_step folded_step in ground arith
    on_text (c ∷ d ∷ []) h = unfold token_step folded_step in ground arith
    on_text (c ∷ d ∷ e ∷ s) h = unfold token_step folded_step in ground arith

-- A text at which no token begins does not begin with a letter.
begins_word-token : (s : Text) → token_step s ≡ none → begins_word s ≡ false
unfolding token_step begins_word is_bearer_byte is_alphanumeric
begins_word-token [] h = refl
begins_word-token (c ∷ s) h = ground arith

abbrev equals : Text → Option Cursor
equals = one_step (λ c. c == b'=')

equals-prev : (s : Text) (q : Cursor) → equals s ≡ some q → is_word_prev q.prev ≡ false
unfolding one_step is_word_prev is_word_byte
equals-prev [] q h = cc
equals-prev (c ∷ s) q h = ground arith

run-equals-prev :
    (n : ℕ) (p : Cursor)
    → is_word_prev p.prev ≡ false
    → is_word_prev (run n (λ q. equals q.rest) p).prev ≡ false
run-equals-prev zero p h = unfold run in h
run-equals-prev (suc n) p h = elim (Option-cases (equals p.rest)) [
  | inl ended ↦ rw (run-ended (suc n) (λ q. equals q.rest) p ended) h
  | inr (q, moved) ↦
      rw (run-moved n (λ q. equals q.rest) p q moved)
        (run-equals-prev n q (equals-prev p.rest q moved))
]

-- Behind the token and its signs of equality, the word does not begin within a word.
run-equals-ends :
    (n : ℕ) (p : Cursor)
    → length p.rest ≤ n
    → token_step p.rest ≡ none
    → (is_word_prev (run n (λ q. equals q.rest) p).prev
        && begins_word (run n (λ q. equals q.rest) p).rest)
      ≡ false
run-equals-ends n p h stopped = elim (Option-cases (equals p.rest)) [
  | inl ended ↦
      rw (run-ended n (λ q. equals q.rest) p ended)
        (ground (arith, begins_word-token p.rest stopped))
  | inr (q, moved) ↦ moves n (omega (arith, one_step-shorter (λ c. c == b'=') p q moved)) q moved
]
  where
    moves :
        (n : ℕ)
        → 0 < n
        → (q : Cursor) → equals p.rest ≡ some q
        → (is_word_prev (run n (λ q. equals q.rest) p).prev
            && begins_word (run n (λ q. equals q.rest) p).rest)
          ≡ false
    moves zero h q moved = absurd (omega arith)
    moves (suc n) h q moved =
        rw (run-moved n (λ q. equals q.rest) p q moved)
          (ground (arith, run-equals-prev n q (equals-prev p.rest q moved)))

-- A place behind a match: the text that is left is shorter, and the word does not begin there within
-- a word.
pub record IsEnd (p r : Cursor) : Type 0 where
  pub shorter : length r.rest < length p.rest
  pub separate : (is_word_prev r.prev && begins_word r.rest) ≡ false

token_end-IsEnd : (p r : Cursor) → token_end p ≡ some r → IsEnd p r
unfolding token_end skip
token_end-IsEnd p r h = elim (Option-cases (token_step p.rest)) [
  | inl ended ↦ (ground arith)
  | inr (q, moved) ↦
      let t = run (length q.rest) (λ q. token_step q.rest) q in
      let stopped =
        run-stops (λ q. token_step q.rest) token_step-shorter (length q.rest) q (omega arith) in
      let at_end : run (length t.rest) (λ q. equals q.rest) t ≡ r = let h' = rw moved at h in cc in
      rw (← at_end) (record {
        shorter = omega (
          arith,
          token_step-shorter p q moved,
          length-run (λ q. token_step q.rest) token_step-shorter (length q.rest) q,
          length-run (λ q. equals q.rest) (one_step-shorter (λ c. c == b'=')) (length t.rest) t,
        );
        separate = run-equals-ends (length t.rest) t (omega arith) stopped;
      })
]

spaced_token-IsEnd : (p q r : Cursor) → spaced_token p ≡ some (q, r) → IsEnd p r
unfolding spaced_token skip
spaced_token-IsEnd p q r h = elim (Option-cases (one_step is_space p.rest)) [
  | inl ended ↦ ground arith
  | inr (o, moved) ↦
      let start = run (length o.rest) (λ q. one_step is_space q.rest) o in
      let h' = rw moved at h in
      elim (Option-cases (token_end start)) [
        | inl ended ↦ ground arith
        | inr (r', found) ↦
            let same : r' ≡ r = ground arith in
            let end = token_end-IsEnd start r' found in
            rw (← same) (record {
              shorter = omega (
                arith,
                one_step-shorter is_space p o moved,
                length-run (λ q. one_step is_space q.rest) (one_step-shorter is_space)
                    (length o.rest) o,
                end.shorter,
              );
              separate = end.separate;
            })
      ]
]

after_word-IsEnd : (ls : Text) (p q r : Cursor) → after_word ls p ≡ some (q, r) → IsEnd p r
unfolding after_word
after_word-IsEnd [] p q r h = spaced_token-IsEnd p q r h
after_word-IsEnd (l ∷ ls) p q r h =
    elim (Option-cases (one_step (λ d. d == l || d == l - 32) p.rest)) [
      | inl ended ↦ ground arith
      | inr (o, moved) ↦
          let end = after_word-IsEnd ls o q r (rw moved at h) in
          record {
            shorter =
                omega (arith, one_step-shorter (λ d. d == l || d == l - 32) p o moved, end.shorter);
            separate = end.separate;
          }
    ]

pub match_redaction-IsEnd :
    (p q r : Cursor) → match_redaction bearer_pattern p ≡ some (q, r) → IsEnd p r
match_redaction-IsEnd p q r h =
    after_word-IsEnd (codes "bearer") p q r (ground (arith, match_redaction-bearer p))
