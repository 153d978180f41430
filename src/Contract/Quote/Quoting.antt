-- ===== src/Contract/Quote/Quoting.antt =====
-- Texts written in quotes, as a contract may hold them.
use savk.Base.{
  ℕ, ◌≡◌, refl, false, ◌||◌, [], ◌∷◌, ◌++◌, some, ◌==◌, if◌then◌else◌, arith, Bool-cases, inl, inr,
}
use savk.Text.{Text}
use savk.Contract.Quote.{unescape}

-- A byte between double quotes.
unfoldable pub escape_byte : ℕ → Text
escape_byte c =
    if c == b'"' || c == b'\\'
    then b'\\' ∷ c ∷ []
    else if c == b'\n'
    then b'\\' ∷ b'n' ∷ []
    else if c == b'\r'
    then b'\\' ∷ b'r' ∷ []
    else if c == b'\t'
    then b'\\' ∷ b't' ∷ []
    else c ∷ []

unfoldable pub escaped : Text → Text
escaped [] = []
escaped (c ∷ s) = escape_byte c ++ escaped s

-- A byte between single quotes.
unfoldable pub double_byte : ℕ → Text
double_byte c = if c == b'\'' then b'\'' ∷ b'\'' ∷ [] else c ∷ []

unfoldable pub doubled : Text → Text
doubled [] = []
doubled (c ∷ s) = double_byte c ++ doubled s

pub data Quoting : Type 0 where
  double : Quoting
  single : Quoting

-- A text in quotes.
unfoldable pub quote : Quoting → Text → Text
quote double s = b'"' ∷ (escaped s ++ (b'"' ∷ []))
quote single s = b'\'' ∷ (doubled s ++ (b'\'' ∷ []))

-- How a byte is written between double quotes: as it is, or as a backslash and a byte.
pub data EscapeByte (c : ℕ) : Type 0 where
  plain : escape_byte c ≡ c ∷ [] → (c == b'\\') ≡ false → (c == b'"') ≡ false → EscapeByte c
  backslashed : (e : ℕ) → escape_byte c ≡ b'\\' ∷ e ∷ [] → unescape e ≡ some c → EscapeByte c

pub EscapeByte-cases : (c : ℕ) → EscapeByte c
unfolding escape_byte unescape
EscapeByte-cases c = elim (Bool-cases (c == b'"' || c == b'\\')) [
  | inl quoted ↦ backslashed c (rw quoted refl) (rw quoted refl)
  | inr other ↦ elim (Bool-cases (c == b'\n')) [
    | inl line ↦ backslashed b'n' (ground arith) (ground arith)
    | inr other1 ↦ elim (Bool-cases (c == b'\r')) [
      | inl return ↦ backslashed b'r' (ground arith) (ground arith)
      | inr other2 ↦ elim (Bool-cases (c == b'\t')) [
        | inl tab ↦ backslashed b't' (ground arith) (ground arith)
        | inr other3 ↦ plain (ground arith) (ground arith) (ground arith)
      ]
    ]
  ]
]

-- How a byte is written between single quotes: as it is, or doubled.
pub data DoubleByte (c : ℕ) : Type 0 where
  once : double_byte c ≡ c ∷ [] → (c == b'\'') ≡ false → DoubleByte c
  twice : double_byte c ≡ b'\'' ∷ b'\'' ∷ [] → c ≡ b'\'' → DoubleByte c

pub DoubleByte-cases : (c : ℕ) → DoubleByte c
unfolding double_byte
DoubleByte-cases c = elim (Bool-cases (c == b'\'')) [
  | inl mark ↦ twice (rw mark refl) (ground arith)
  | inr other ↦ once (rw other refl) other
]
