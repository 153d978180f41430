-- ===== src/Reporters/Redact.antt =====
-- internal/reporters/evidence_sanitize.go: the patterns of `evidenceRedactionPatterns`, and
-- `ReplaceAllString` by each of them.
pub mod Bearer
use savk.Base.{
  ℕ, zero, suc, ◌-◌, ◌==◌, Bool, not, ◌||◌, ◌&&◌, List, [], ◌∷◌, ◌++◌, Option, none, some, length,
  take, if◌then◌else◌,
}
use savk.Text.{Text, codes}
use savk.Text.Regex.{
  Cursor, Regex, empty, boundary, one_of, seq, alt, star, plus, optional, match_at, word,
  folded_class, is_space, is_alphanumeric,
}

-- `redactionPattern`: the expression in two parts, of which the first is the groups 1 and 2 where
-- `${1}${2}` stands in the replacement, and the text that is written where it does not.
pub record RedactionPattern : Type 0 where
  pub lead : Regex
  pub secret : Regex
  pub lead_text : Option Text

abbrev pub spaces : Regex
spaces = star (one_of is_space)

-- `(\s*[:=]\s*)`
abbrev pub assignment : Regex
assignment = seq spaces (seq (one_of (λ c. c == b':' || c == b'=')) spaces)

unfoldable pub authorization_pattern : RedactionPattern
authorization_pattern = record {
  lead = seq boundary (seq (word (codes "authorization")) assignment);
  secret = plus (one_of (λ c. not (c == b'\r' || c == b'\n')));
  lead_text = none;
}

-- `[_-]?`
abbrev pub optional_dash : Regex
optional_dash = optional (one_of (λ c. c == b'_' || c == b'-'))

-- Two words with a dash that may be left out.
abbrev pub dashed : Text → Text → Regex
dashed first second = seq (word first) (seq optional_dash (word second))

unfoldable pub secret_name : Regex
secret_name = alt (word (codes "password")) (
    alt (word (codes "passwd")) (
      alt (word (codes "secret")) (
        alt (word (codes "token")) (
          alt (dashed (codes "api") (codes "key")) (
            alt (dashed (codes "access") (codes "key"))
              (dashed (codes "client") (codes "secret")))))))

-- A text between two of the same quotes.
abbrev pub quoted_by : ℕ → Regex
quoted_by quote =
    seq (one_of (λ c. c == quote))
      (seq (star (one_of (λ c. not (c == quote)))) (one_of (λ c. c == quote)))

unfoldable pub secret_pattern : RedactionPattern
unfolding secret_name
secret_pattern = record {
  lead = seq boundary (seq secret_name assignment);
  secret = alt (quoted_by b'"') (alt (quoted_by b'\'') (plus (one_of (λ c. not (is_space c)))));
  lead_text = none;
}

-- `[A-Za-z0-9._~+/-]`, of the bytes
unfoldable pub is_bearer_byte : ℕ → Bool
is_bearer_byte c =
    is_alphanumeric c
    || (c == b'.' || (c == b'_' || (c == b'~' || (c == b'+' || (c == b'/' || c == b'-')))))

unfoldable pub bearer_pattern : RedactionPattern
bearer_pattern = record {
  lead = seq boundary (seq (word (codes "bearer")) (plus (one_of is_space)));
  secret = seq (plus (folded_class is_bearer_byte)) (star (one_of (λ c. c == b'=')));
  lead_text = some (codes "Bearer ");
}

-- `[A-Za-z0-9+/=]`, of the bytes
unfoldable pub is_basic_byte : ℕ → Bool
is_basic_byte c = is_alphanumeric c || (c == b'+' || (c == b'/' || c == b'='))

unfoldable pub basic_pattern : RedactionPattern
basic_pattern = record {
  lead = seq boundary (seq (word (codes "basic")) (plus (one_of is_space)));
  secret = plus (folded_class is_basic_byte);
  lead_text = some (codes "Basic ");
}

-- `evidenceRedactionPatterns`
unfoldable pub evidence_redaction_patterns : List RedactionPattern
evidence_redaction_patterns =
    authorization_pattern ∷ secret_pattern ∷ bearer_pattern ∷ basic_pattern ∷ []

-- A match at a place: the places behind its two parts.
unfoldable pub match_redaction : RedactionPattern → Cursor → Option (Cursor × Cursor)
unfolding match_at
match_redaction pattern p =
    match_at pattern.lead p (λ q. match_at pattern.secret q (λ r. some (q, r)))

-- What is written for a match.
unfoldable pub replacement : RedactionPattern → Cursor → Cursor → Text
replacement pattern p q =
    elim pattern.lead_text [ none ↦ take (length p.rest - length q.rest) p.rest | some s ↦ s ]
    ++ codes "[REDACTED]"

-- `ReplaceAllString` from a place on; as much fuel as there is text is enough, since no pattern
-- matches the empty text.
unfoldable pub replace_from : ℕ → RedactionPattern → Cursor → Text
unfolding match_redaction replacement
replace_from zero pattern p = p.rest
replace_from (suc n) pattern p = elim (match_redaction pattern p) [
  | some (q, r) ↦ replacement pattern p q ++ replace_from n pattern r
  | none ↦ elim p.rest [
    | [] ↦ []
    | c ∷ s ↦ c ∷ replace_from n pattern (record { prev = some c; rest = s })
  ]
]

-- `pattern.regex.ReplaceAllString(value, pattern.replacement)`
unfoldable pub replace_all : RedactionPattern → Text → Text
unfolding replace_from
replace_all pattern value =
    replace_from (length value) pattern (record { prev = none; rest = value })
