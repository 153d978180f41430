-- ===== src/Contract/Ensures.antt =====
-- Postconditions of the reader's results.
use savk.Base.{Bool, true, false, if◌then◌else◌, ◌≡◌, refl, Result, ok, err, ◌>>=◌}
use savk.Contract.Node.{ParseError}

abbrev DecodeResult : Type 0 → Type 0
DecodeResult A = Result ParseError A

-- Postconditions: a value of the result satisfies `P`.
pub data Ensures {A : Type 0} (P : A → Type 0) : DecodeResult A → Type 0 where
  good : (a : A) → P a → Ensures P (ok a)
  bad : (e : ParseError) → Ensures P (err e)

-- The second step may use that the first returned.
pub then-Ensures :
    {A B : Type 0} {P : B → Type 0} (m : DecodeResult A) {f : A → DecodeResult B}
    → ((a : A) → m ≡ ok a → Ensures P (f a))
    → Ensures P (m >>= f)
then-Ensures (ok a) h = h a refl
then-Ensures (err e) h = bad e

pub Ensures-ok :
    {A : Type 0} {P : A → Type 0} {r : DecodeResult A} (a : A) → Ensures P r → r ≡ ok a → P a
Ensures-ok {P} a (good b p) e = let same : b ≡ a = cc in rw (← same) p
Ensures-ok a (bad e) h = absurd (cc)

pub if-Ensures :
    {A : Type 0} {P : A → Type 0} {r s : DecodeResult A} (b : Bool)
    → Ensures P r
    → Ensures P s
    → Ensures P (if b then r else s)
if-Ensures true hr hs = hr
if-Ensures false hr hs = hs

pub weaken-Ensures :
    {A : Type 0} {P Q : A → Type 0} {r : DecodeResult A}
    → ((a : A) → P a → Q a)
    → Ensures P r
    → Ensures Q r
weaken-Ensures f (good a p) = good a (f a p)
weaken-Ensures f (bad e) = bad e
