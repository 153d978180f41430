-- ===== src/Tests/Redacting.antt =====
-- Redaction at concrete texts.
use savk.Base.{◌≡◌, refl, ◌∷◌, ◌++◌, true, none}
use savk.Text.{codes}
use savk.Text.Regex.{word, is_space, is_alphanumeric, folded_class}
use savk.Reporters.Redact.{
  authorization_pattern, secret_pattern, bearer_pattern, basic_pattern, is_bearer_byte,
  is_basic_byte, replace_all,
}
use savk.Reporters.Redact.Bearer.Absent.{no_bearer, no_bearer-replace_all}

authorization_redacted :
    replace_all authorization_pattern (codes "x Authorization: Basic abc")
    ≡ codes "x Authorization: [REDACTED]"
unfolding replace_all authorization_pattern codes word is_space
authorization_redacted = refl

-- A quoted value is redacted as a whole, and a name that goes on in front is no name.
secret_redacted :
    replace_all secret_pattern (codes "API-Key = \"a b\" mytoken=1 token:x y")
    ≡ codes "API-Key = [REDACTED] mytoken=1 token:[REDACTED] y"
unfolding replace_all secret_pattern codes word is_space
secret_redacted = refl

-- The long s is an s under `(?i)`.
folded_redacted :
    replace_all secret_pattern (codes "pas" ++ (0xc5 ∷ 0xbf ∷ codes "wd=x"))
    ≡ codes "pas" ++ (0xc5 ∷ 0xbf ∷ codes "wd=[REDACTED]")
unfolding replace_all secret_pattern codes word is_space
folded_redacted = refl

bearer_redacted :
    replace_all bearer_pattern (codes "bearer  a.b-c== Bearer x")
    ≡ codes "Bearer [REDACTED] Bearer [REDACTED]"
unfolding replace_all bearer_pattern codes word is_space is_bearer_byte is_alphanumeric folded_class
bearer_redacted = refl

basic_redacted : replace_all basic_pattern (codes "BASIC YWJj=!") ≡ codes "Basic [REDACTED]!"
unfolding replace_all basic_pattern codes word is_space is_basic_byte is_alphanumeric folded_class
basic_redacted = refl

no_bearer-replace_all_example :
    no_bearer none (replace_all bearer_pattern (codes "bearer  a.b-c== Bearer x")) ≡ true
no_bearer-replace_all_example = no_bearer-replace_all (codes "bearer  a.b-c== Bearer x")
