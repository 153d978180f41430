-- ===== src/Collectors/Paths/Run/Modes.antt =====
-- The mode that a check observes, as a contract writes it.
use savk.Base.{ℕ, ◌+◌, ◌/◌, ◌%◌, ◌<◌, ◌≡◌, refl, true, [], ◌∷◌, arith}
use savk.Contract.Field.{is_octal_mode}
use savk.Collectors.Paths.{FileMode, octal_digits, mode_value, format_file_mode}

five_digits :
    (v : ℕ)
    → octal_digits 5 v
      ≡ (b'0' + v / 8 / 8 / 8 / 8 % 8)
        ∷ (b'0' + v / 8 / 8 / 8 % 8)
        ∷ (b'0' + v / 8 / 8 % 8)
        ∷ (b'0' + v / 8 % 8)
        ∷ (b'0' + v % 8)
        ∷ []
unfolding octal_digits
five_digits v = refl

four_digits :
    (v : ℕ)
    → octal_digits 4 v
      ≡ (b'0' + v / 8 / 8 / 8 % 8)
        ∷ (b'0' + v / 8 / 8 % 8)
        ∷ (b'0' + v / 8 % 8)
        ∷ (b'0' + v % 8)
        ∷ []
unfolding octal_digits
four_digits v = refl

mode_value-lt : (m : FileMode) → mode_value m < 0o10000
unfolding mode_value
mode_value-lt m = ground arith

-- Every mode is printed as a contract may write it.
pub format_file_mode-is_octal_mode : (m : FileMode) → is_octal_mode (format_file_mode m) ≡ true
unfolding format_file_mode is_octal_mode
format_file_mode-is_octal_mode m =
    ground (arith, mode_value-lt m, five_digits (mode_value m), four_digits (mode_value m))

same_value :
    (m m' : FileMode) → format_file_mode m ≡ format_file_mode m' → mode_value m ≡ mode_value m'
unfolding format_file_mode
same_value m m' e = ground (
  arith,
  mode_value-lt m,
  five_digits (mode_value m),
  four_digits (mode_value m),
  mode_value-lt m',
  five_digits (mode_value m'),
  four_digits (mode_value m'),
)

-- Modes that are printed alike have the same nine permission bits, and the same special bits: set-user-ID,
-- set-group-ID and sticky.
pub format_file_mode_injective :
    (m m' : FileMode)
    → format_file_mode m ≡ format_file_mode m'
    → (m.bits % 0o1000 ≡ m'.bits % 0o1000)
      × ((m.setuid ≡ m'.setuid) × ((m.setgid ≡ m'.setgid) × (m.sticky ≡ m'.sticky)))
unfolding mode_value
format_file_mode_injective m m' e =
    let same = same_value m m' e in (ground arith, (ground arith, (ground arith, ground arith)))
