-- ===== src/Reporters/Redact/Bearer/Found.antt =====
-- internal/reporters/evidence_sanitize.go: where the pattern for bearer tokens matches.
use savk.Base.{
  ℕ, zero, suc, ◌-◌, ◌==◌, ◌≤◌, ◌≡◌, refl, Bool, false, not, ◌||◌, ◌&&◌, [], ◌∷◌, Option, some,
  length, arith, if◌then◌else◌, is_none,
}
use savk.Text.{Text, codes}
use savk.Text.Regex.{Cursor, at_boundary, is_space}
use savk.Text.Regex.Star.{run}
use savk.Reporters.Redact.{bearer_pattern, match_redaction}
use savk.Reporters.Redact.Bearer.{behind, one_step, token_step, skip, token_end, spaced_token}
use savk.Reporters.Redact.Bearer.Match.{after_word, match_redaction-bearer}

-- Whether a token begins with the text, whether one follows behind spaces or none, behind spaces,
-- and behind the letters that are left of the word and spaces.
unfoldable pub has_token : Text → Bool
has_token s = not (is_none (token_step s))

unfoldable pub spaced : Text → Bool
spaced [] = false
spaced (c ∷ s) = if is_space c then spaced s else has_token (c ∷ s)

unfoldable pub behind_word : Text → Text → Bool
behind_word [] [] = false
behind_word [] (c ∷ s) = is_space c && spaced s
behind_word (l ∷ ls) [] = false
behind_word (l ∷ ls) (c ∷ s) = (c == l || c == l - 32) && behind_word ls s

run-spaced :
    (n : ℕ) (prev : Option ℕ) (s : Text)
    → length s ≤ n
    → has_token (run n (λ q. one_step is_space q.rest) (record { prev = prev; rest = s })).rest
      ≡ spaced s
unfolding run spaced one_step
run-spaced zero prev [] h = unfold has_token token_step in refl
run-spaced zero prev (c ∷ s) h = absurd (omega arith)
run-spaced (suc n) prev [] h = unfold has_token token_step in refl
run-spaced (suc n) prev (c ∷ s) h = ground (arith, run-spaced n (some c) s)

token_end-found : (p : Cursor) → is_none (token_end p) ≡ not (has_token p.rest)
unfolding token_end has_token
token_end-found p = ground arith

spaced_token-found :
    (prev : Option ℕ) (s : Text)
    → is_none (spaced_token (record { prev = prev; rest = s })) ≡ not (behind_word [] s)
unfolding spaced_token behind_word one_step skip
spaced_token-found prev [] = refl
spaced_token-found prev (c ∷ s) =
    let start = run (length s) (λ q. one_step is_space q.rest) (behind c s) in
    ground (arith, run-spaced (length s) (some c) s (omega arith), token_end-found start)

after_word-found :
    (ls : Text) (prev : Option ℕ) (s : Text)
    → is_none (after_word ls (record { prev = prev; rest = s })) ≡ not (behind_word ls s)
unfolding after_word behind_word one_step
after_word-found [] prev s = spaced_token-found prev s
after_word-found (l ∷ ls) prev [] = refl
after_word-found (l ∷ ls) prev (c ∷ s) = ground (arith, after_word-found ls (some c) s)

-- The pattern matches at a place just when a word begins or ends there, and the word, spaces and a
-- token stand behind it.
pub bearer_found :
    (p : Cursor)
    → is_none (match_redaction bearer_pattern p)
      ≡ not (at_boundary p && behind_word (codes "bearer") p.rest)
bearer_found p =
    ground (arith, match_redaction-bearer p, after_word-found (codes "bearer") p.prev p.rest)
