-- ===== src/Contract/Quote/Ends.antt =====
-- The last byte of a text that ends with it.
use savk.Base.{◌≡◌, ℕ, refl, ap, [], ◌∷◌, ◌++◌, some}
use savk.Text.{Text}
use savk.Text.Ops.{last_byte, drop_last}

pub last_byte-append : (s : Text) (e : ℕ) → last_byte (s ++ (e ∷ [])) ≡ some e
unfolding last_byte
last_byte-append [] e = refl
last_byte-append (c ∷ []) e = refl
last_byte-append (c ∷ d ∷ s) e = last_byte-append (d ∷ s) e

pub drop_last-append : (s : Text) (e : ℕ) → drop_last (s ++ (e ∷ [])) ≡ s
unfolding drop_last
drop_last-append [] e = refl
drop_last-append (c ∷ []) e = refl
drop_last-append (c ∷ d ∷ s) e = ap (◌∷◌ c) (drop_last-append (d ∷ s) e)
