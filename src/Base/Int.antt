-- ===== src/Base/Int.antt =====
-- Signed integers over the native numbers, for the values of `int`.
use Prim.Native.Nat.{ℕ, zero, suc, ◌-◌, ◌%◌}
use mathlib.Core.Bool.{Bool, true, false}
use cs_3_boost_echo_static_s.Base.Tests.{ltb, leb, ◌==◌, if◌then◌else◌}

-- `negsuc n` is -(n + 1).
pub data ℤ : Type 0 where
  pos : ℕ → ℤ
  negsuc : ℕ → ℤ

-- `i--`
abbrev pub decrement : ℤ → ℤ
decrement (pos zero) = negsuc 0
decrement (pos (suc n)) = pos n
decrement (negsuc n) = negsuc (suc n)

-- `i == n` for a literal `n` that is not negative
abbrev pub eq_pos : ℤ → ℕ → Bool
eq_pos (pos m) n = m == n
eq_pos (negsuc m) n = false

-- `lo <= i` and `i <= hi` for literals that are not negative
abbrev pub ge_pos : ℤ → ℕ → Bool
ge_pos (pos m) n = leb n m
ge_pos (negsuc m) n = false

abbrev pub le_pos : ℤ → ℕ → Bool
le_pos (pos m) n = leb m n
le_pos (negsuc m) n = true

-- A byte as a `char`, which is signed, promoted to `int`.
abbrev pub int_of_char : ℕ → ℤ
int_of_char b = if ltb b 128 then pos b else negsuc (255 - b)

-- `static_cast<char>(i)` as a byte: the value modulo 256.
abbrev pub char_of_int : ℤ → ℕ
char_of_int (pos n) = n % 256
char_of_int (negsuc n) = 255 - n % 256
