-- ===== src/Reporters/Sanitize/Boundary.antt =====
-- Truncating cuts between runes.
use savk.Base.{
  ℕ, zero, suc, ◌+◌, ◌-◌, ◌≤◌, ◌≡◌, refl, sym, ◌∙◌, true, [], ◌∷◌, ◌++◌, none, some, ltb,
  if◌then◌else◌, length, take, arith, ◌⊎◌, inl, inr, length-take, Bool-cases, Option-cases,
}
use savk.Text.{Text, codes}
use savk.Text.Utf8.{tail_width, valid_from, is_valid_utf8}
use savk.Reporters.Sanitize.{
  truncate_suffix, rune_len, rune_tail, cut_from, truncate_utf8, truncate_evidence_raw,
}

-- A rune at the front is read from its own bytes alone.
tail_width-take :
    (b w k : ℕ) (s : Text) → tail_width b s ≡ some w → w ≤ k → tail_width b (take k s) ≡ some w
unfolding tail_width
tail_width-take b w zero [] h le = ground arith
tail_width-take b w (suc k) [] h le = ground arith
tail_width-take b w zero (c ∷ []) h le = ground arith
tail_width-take b w (suc zero) (c ∷ []) h le = ground arith
tail_width-take b w (suc (suc k)) (c ∷ []) h le = ground arith
tail_width-take b w zero (c ∷ d ∷ []) h le = ground arith
tail_width-take b w (suc zero) (c ∷ d ∷ []) h le = ground arith
tail_width-take b w (suc (suc zero)) (c ∷ d ∷ []) h le = ground arith
tail_width-take b w (suc (suc (suc k))) (c ∷ d ∷ []) h le = ground arith
tail_width-take b w zero (c ∷ d ∷ e ∷ s) h le = ground arith
tail_width-take b w (suc zero) (c ∷ d ∷ e ∷ s) h le = ground arith
tail_width-take b w (suc (suc zero)) (c ∷ d ∷ e ∷ s) h le = ground arith
tail_width-take b w (suc (suc (suc k))) (c ∷ d ∷ e ∷ s) h le = ground arith

tail_width-append :
    (b w : ℕ) (s t : Text)
    → tail_width b s ≡ some w
    → (tail_width b (s ++ t) ≡ some w) × (w ≤ length s)
unfolding tail_width
tail_width-append b w [] [] h = ground arith
tail_width-append b w [] (x ∷ []) h = ground arith
tail_width-append b w [] (x ∷ y ∷ []) h = ground arith
tail_width-append b w [] (x ∷ y ∷ z ∷ t) h = ground arith
tail_width-append b w (c ∷ []) [] h = ground arith
tail_width-append b w (c ∷ []) (x ∷ []) h = ground arith
tail_width-append b w (c ∷ []) (x ∷ y ∷ t) h = ground arith
tail_width-append b w (c ∷ d ∷ []) [] h = ground arith
tail_width-append b w (c ∷ d ∷ []) (x ∷ t) h = ground arith
tail_width-append b w (c ∷ d ∷ e ∷ s) t h = ground arith

valid_from-short : (n : ℕ) (s : Text) → length s ≤ n → valid_from n s ≡ true
unfolding valid_from
valid_from-short n [] h = refl
valid_from-short zero (b ∷ s) h = absurd (omega (arith, h))
valid_from-short (suc n) (b ∷ s) h = valid_from-short n s (omega (arith, h))

valid_from-rune :
    (b w : ℕ) (s : Text) → tail_width b s ≡ some w → valid_from 0 (b ∷ s) ≡ valid_from w s
unfolding valid_from
valid_from-rune b w s e = rw (valid_from, e)

valid_from-no_rune : (b : ℕ) (s : Text) → tail_width b s ≡ none → valid_from 0 (b ∷ s) ≡ true → ⊥
unfolding valid_from
valid_from-no_rune b s e h = let h' = rw (e, valid_from) at h in cc

valid_from-append :
    (n : ℕ) (s t : Text)
    → valid_from n s ≡ true
    → n ≤ length s
    → valid_from 0 t ≡ true
    → valid_from n (s ++ t) ≡ true
unfolding valid_from
valid_from-append zero [] t h le valid = valid
valid_from-append (suc n) [] t h le valid = absurd (omega (arith, le))
valid_from-append (suc n) (b ∷ s) t h le valid = valid_from-append n s t h (omega (arith, le)) valid
valid_from-append zero (b ∷ s) t h le valid = elim (Option-cases (tail_width b s)) [
  | inl e ↦ absurd (valid_from-no_rune b s e h)
  | inr (w, e) ↦
      let both = tail_width-append b w s t e in
      valid_from-rune b w (s ++ t) both.0
      ∙ valid_from-append w s t (sym (valid_from-rune b w s e) ∙ h) both.1 valid
]

-- A rune at the front, and a valid rest.
valid_from-take :
    (b w k : ℕ) (s : Text)
    → tail_width b s ≡ some w
    → w ≤ k
    → valid_from w (take k s) ≡ true
    → valid_from 0 (b ∷ take k s) ≡ true
valid_from-take b w k s e le h = valid_from-rune b w (take k s) (tail_width-take b w k s e le) ∙ h

cut_from-rune :
    (limit index cut b w : ℕ) (s : Text)
    → tail_width b s ≡ some w
    → cut_from limit 0 index cut (b ∷ s)
      ≡ (if ltb limit (index + suc w) then cut else cut_from limit w (suc index) (index + suc w) s)
unfolding cut_from rune_len rune_tail
cut_from-rune limit index cut b w s e = rw (cut_from, rune_len, rune_tail, e)

-- The loop ends where it was when it last stored, or at a boundary behind.
cut_from-boundary :
    (limit n index cut : ℕ) (s : Text)
    → valid_from n s ≡ true
    → (cut_from limit n index cut s ≡ cut)
      ⊎ ((k : ℕ) × (cut_from limit n index cut s ≡ index + k)
          × (n ≤ k)
          × (valid_from n (take k s) ≡ true))
unfolding cut_from valid_from
cut_from-boundary limit n index cut [] h = inl refl
cut_from-boundary limit (suc n) index cut (b ∷ s) h =
    elim (cut_from-boundary limit n (suc index) cut s h) [
      | inl e ↦ inl e
      | inr (k, e, le, valid) ↦ inr (suc k, omega (arith, e), omega (arith, le), valid)
    ]
cut_from-boundary limit zero index cut (b ∷ s) h = elim (Option-cases (tail_width b s)) [
  | inl e ↦ absurd (valid_from-no_rune b s e h)
  | inr (w, e) ↦ elim (Bool-cases (ltb limit (index + suc w))) [
    | inl over ↦ inl (cut_from-rune limit index cut b w s e ∙ rw over)
    | inr fits ↦
        elim (cut_from-boundary limit w (suc index) (index + suc w) s
          (sym (valid_from-rune b w s e) ∙ h)) [
            | inl here ↦ inr (
              suc w,
              cut_from-rune limit index cut b w s e ∙ rw fits here,
              omega arith,
              valid_from-take b w w s e (omega arith)
                  (valid_from-short w (take w s) (length-take w s)),
            )
            | inr (k, later, le, valid) ↦ inr (
              suc k,
              cut_from-rune limit index cut b w s e ∙ rw fits (omega (arith, later)),
              omega arith,
              valid_from-take b w k s e le valid,
            )
          ]
  ]
]

truncate_utf8-valid :
    (s : Text) (limit : ℕ) → valid_from 0 s ≡ true → valid_from 0 (truncate_utf8 s limit) ≡ true
unfolding truncate_utf8
truncate_utf8-valid s limit h =
    ground
      (arith, cut_valid (cut_from-boundary limit 0 0 0 s h), valid_from-short 0 [] (omega arith))
  where
    cut_valid :
        (cut_from limit 0 0 0 s ≡ 0)
          ⊎ ((k : ℕ) × (cut_from limit 0 0 0 s ≡ 0 + k)
              × (0 ≤ k)
              × (valid_from 0 (take k s) ≡ true))
        → valid_from 0 (take (cut_from limit 0 0 0 s) s) ≡ true
    cut_valid (inl e) = rw e (unfold valid_from in refl)
    cut_valid (inr (k, e, le, valid)) =
        let same : cut_from limit 0 0 0 s ≡ k = omega (arith, e) in rw same valid

-- Evidence that is valid UTF-8 is so when it has been truncated: the cut falls between runes.
pub truncate_evidence_raw-is_valid_utf8 :
    (raw : Text) (limit : ℕ)
    → is_valid_utf8 raw ≡ true
    → is_valid_utf8 (truncate_evidence_raw raw limit).0 ≡ true
unfolding truncate_evidence_raw codes
truncate_evidence_raw-is_valid_utf8 raw limit h =
    let visible = limit - length truncate_suffix in
    ground (
      arith,
      truncate_utf8-valid raw limit h,
      valid_from-append 0 (truncate_utf8 raw visible) truncate_suffix
          (truncate_utf8-valid raw visible h) (omega arith) suffix_valid,
    )
  where
    suffix_valid : valid_from 0 truncate_suffix ≡ true
    suffix_valid = unfold valid_from truncate_suffix tail_width in refl
