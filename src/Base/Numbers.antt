-- ===== src/Base/Numbers.antt =====
-- Numbers read from text by the C++ library: `std::stoi`, and `>> std::hex` into an `int`.
use Prim.Native.Nat.{ℕ, ◌+◌, ◌-◌, ◌*◌}
use mathlib.Core.Bool.{Bool, ◌&&◌, ◌||◌}
use mathlib.Core.List.{[], ◌∷◌}
use mathlib.Core.Option.{Option, none, some}
use cs_3_boost_echo_static_s.Base.Int.{ℤ, pos, negsuc}
use cs_3_boost_echo_static_s.Base.Tests.{leb, ◌==◌, if◌then◌else◌}
use cs_3_boost_echo_static_s.Base.Text.{Bytes}

abbrev pub is_space : ℕ → Bool
is_space c = c == b' ' || leb 9 c && leb c 13

unfoldable pub skip_spaces : Bytes → Bytes
skip_spaces [] = []
skip_spaces (c ∷ s) = let later = skip_spaces s in if is_space c then later else c ∷ s

unfoldable pub decimal_digit : ℕ → Option ℕ
decimal_digit c = if leb b'0' c && leb c b'9' then some (c - b'0') else none

unfoldable pub hex_digit : ℕ → Option ℕ
hex_digit c =
    if leb b'0' c && leb c b'9'
    then some (c - b'0')
    else if leb b'a' c && leb c b'f'
    then some (c - b'a' + 10)
    else if leb b'A' c && leb c b'F'
    then some (c - b'A' + 10)
    else none

-- The value of the digits in front, behind `n`.
unfoldable pub digits_value : (ℕ → Option ℕ) → ℕ → ℕ → Bytes → ℕ
digits_value digit base n [] = n
digits_value digit base n (c ∷ s) = elim (digit c) [
  | none ↦ n
  | some d ↦ digits_value digit base (n * base + d) s
]

-- At least one digit is wanted.
unfoldable pub unsigned_value : (ℕ → Option ℕ) → ℕ → Bytes → Option ℕ
unsigned_value digit base [] = none
unsigned_value digit base (c ∷ s) = elim (digit c) [
  | none ↦ none
  | some d ↦ some (digits_value digit base d s)
]

abbrev pub negate : ℕ → ℤ
negate n = if n == 0 then pos 0 else negsuc (n - 1)

-- An `int` has 32 bits.
abbrev pub fits_positive : ℕ → Option ℤ
fits_positive n = if leb n 2147483647 then some (pos n) else none

abbrev pub fits_negative : ℕ → Option ℤ
fits_negative n = if leb n 2147483648 then some (negate n) else none

abbrev pub then_fits : (ℕ → Option ℤ) → Option ℕ → Option ℤ
then_fits f none = none
then_fits f (some n) = f n

unfoldable pub signed_value : (Bytes → Option ℕ) → Bytes → Option ℤ
signed_value value [] = none
signed_value value (c ∷ s) =
    if c == b'-'
    then then_fits fits_negative (value s)
    else if c == b'+'
    then then_fits fits_positive (value s)
    else then_fits fits_positive (value (c ∷ s))

-- `std::stoi(s)`; `none` is an exception. Text behind the digits is ignored.
unfoldable pub stoi : Bytes → Option ℤ
unfolding signed_value unsigned_value digits_value decimal_digit skip_spaces
stoi s = signed_value (unsigned_value decimal_digit 10) (skip_spaces s)

-- A prefix `0x` wants a digit behind it.
unfoldable pub hex_unsigned : Bytes → Option ℕ
hex_unsigned (z ∷ x ∷ s) =
    if z == b'0' && (x == b'x' || x == b'X')
    then unsigned_value hex_digit 16 s
    else unsigned_value hex_digit 16 (z ∷ x ∷ s)
hex_unsigned s = unsigned_value hex_digit 16 s

-- `std::istringstream is(s); is >> std::hex >> value`; `none` is a failed stream.
unfoldable pub read_hex : Bytes → Option ℤ
unfolding signed_value hex_unsigned unsigned_value digits_value hex_digit skip_spaces
read_hex s = signed_value hex_unsigned (skip_spaces s)
