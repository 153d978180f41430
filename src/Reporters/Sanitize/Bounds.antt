-- ===== src/Reporters/Sanitize/Bounds.antt =====
-- Truncating keeps within the limit.
use savk.Base.{ℕ, zero, suc, ◌+◌, ◌-◌, ◌≤◌, [], ◌∷◌, length, arith, length-append, length-take}
use savk.Text.{Text}
use savk.Reporters.Sanitize.{
  truncate_suffix, rune_len, rune_tail, cut_from, truncate_utf8, truncate_evidence_raw,
}

cut_from-le :
    (limit n index cut : ℕ) (s : Text) → cut ≤ limit → cut_from limit n index cut s ≤ limit
unfolding cut_from
cut_from-le limit n index cut [] h = h
cut_from-le limit (suc n) index cut (b ∷ s) h = cut_from-le limit n (suc index) cut s h
cut_from-le limit zero index cut (b ∷ s) h =
    ground (arith, cut_from-le limit (rune_tail b s) (suc index) (index + rune_len b s) s)

length-truncate_utf8 : (s : Text) (limit : ℕ) → length (truncate_utf8 s limit) ≤ limit
unfolding truncate_utf8
length-truncate_utf8 s limit =
    ground (arith, cut_from-le limit 0 0 0 s (omega arith), length-take (cut_from limit 0 0 0 s) s)

-- Truncated evidence takes at most the limit.
pub length-truncate_evidence_raw :
    (raw : Text) (limit : ℕ) → 1 ≤ limit → length (truncate_evidence_raw raw limit).0 ≤ limit
unfolding truncate_evidence_raw
length-truncate_evidence_raw raw limit h =
    let visible = limit - length truncate_suffix in
    ground (
      arith,
      length-truncate_utf8 raw limit,
      length-truncate_utf8 raw visible,
      length-append (truncate_utf8 raw visible) truncate_suffix,
    )
