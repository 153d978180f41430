-- ===== src/Reporters/Sanitize.antt =====
-- internal/reporters/evidence_sanitize.go: redacting and truncating raw evidence.
pub mod Bounds
pub mod Boundary
use savk.Base.{
  ℕ, zero, suc, ◌+◌, ◌-◌, Bool, true, false, not, ◌||◌, List, [], ◌∷◌, ◌++◌, Option, none, some,
  ltb, leb, ◌==◌, if◌then◌else◌, length, take, is_empty,
}
use savk.Text.{Text, text_eq, codes}
use savk.Text.Utf8.{tail_width}
use savk.Evidence.{Evidence}
use savk.Reporters.Redact.{RedactionPattern, evidence_redaction_patterns, replace_all}

-- `truncateSuffix`
unfoldable pub truncate_suffix : Text
truncate_suffix = b'\n' ∷ codes "...[truncated]"

-- `utf8.RuneLen(r)` of the rune that a `range` loop reads at `b ∷ s`: a byte that starts no rune
-- is read as U+FFFD, which takes 3 bytes.
unfoldable pub rune_len : ℕ → Text → ℕ
rune_len b s = elim (tail_width b s) [ none ↦ 3 | some w ↦ suc w ]

-- The bytes that the loop skips behind `b`.
unfoldable pub rune_tail : ℕ → Text → ℕ
rune_tail b s = elim (tail_width b s) [ none ↦ 0 | some w ↦ w ]

-- The loop of `truncateUTF8`: `pending` bytes of the rune that was read last are still to come.
unfoldable pub cut_from : ℕ → ℕ → ℕ → ℕ → Text → ℕ
cut_from limit pending index cut [] = cut
cut_from limit (suc n) index cut (b ∷ s) = cut_from limit n (suc index) cut s
cut_from limit zero index cut (b ∷ s) =
    let rest = cut_from limit (rune_tail b s) (suc index) (index + rune_len b s) s in
    if ltb limit (index + rune_len b s) then cut else rest

-- `truncateUTF8`
unfoldable pub truncate_utf8 : Text → ℕ → Text
truncate_utf8 value limit =
    if limit == 0 || is_empty value
    then []
    else if leb (length value) limit
    then value
    else take (cut_from limit 0 0 0 value) value

-- `truncateEvidenceRaw`
unfoldable pub truncate_evidence_raw : Text → ℕ → Text × Bool
truncate_evidence_raw raw limit =
    if limit == 0 || leb (length raw) limit
    then (raw, false)
    else if leb limit (length truncate_suffix)
    then (truncate_utf8 raw limit, true)
    else (truncate_utf8 raw (limit - length truncate_suffix) ++ truncate_suffix, true)

-- The loop of `redactEvidenceRaw` over the patterns
unfoldable pub redact_each : List RedactionPattern → Text → Bool → Text × Bool
redact_each [] raw redacted = (raw, redacted)
redact_each (pattern ∷ patterns) raw redacted =
    let replaced = replace_all pattern raw in
    let same = redact_each patterns raw redacted in
    let changed = redact_each patterns replaced true in
    if text_eq replaced raw then same else changed

-- `redactEvidenceRaw`
unfoldable pub redact_evidence_raw : Text → Text × Bool
redact_evidence_raw raw = redact_each evidence_redaction_patterns raw false

-- `sanitizeEvidence`: times are kept in UTC throughout.
unfoldable pub sanitize_evidence : Bool → Evidence → Evidence
sanitize_evidence include_raw ev =
    if is_empty ev.raw || include_raw
    then ev
    else let (redacted_raw, redacted) = redact_evidence_raw ev.raw in
      let (raw, truncated) = truncate_evidence_raw redacted_raw 4096 in
      record ev {
        raw = raw;
        redacted = ev.redacted || redacted;
        truncated = ev.truncated || truncated;
      }
