-- ===== src/Base/Text.antt =====
-- `std::string` as a list of bytes: literals, equality and the searches that the sources call.
use Prim.Native.Nat.{ℕ}
use Prim.Native.Char.{code}
use Prim.Native.String.{String}
use mathlib.Core.Path.{◌≡◌}
use mathlib.Core.Logic.{◌↔◌}
use mathlib.Core.Bool.{Bool, true, false, ◌&&◌}
use mathlib.Core.List.{List, [], ◌∷◌}
use native.Mathlib.Omega.{arith}
use cs_3_boost_echo_static_s.Base.Tests.{◌==◌, if◌then◌else◌}

abbrev pub Bytes : Type 0
Bytes = List ℕ

-- The bytes of a literal; every literal of the sources is ASCII.
abbrev pub codes : String → Bytes
codes String.[] = []
codes (String.◌∷◌ c s) = code c ∷ codes s

-- `operator==` of `std::string`.
unfoldable pub equal : Bytes → Bytes → Bool
equal [] [] = true
equal (x ∷ xs) (y ∷ ys) = x == y && equal xs ys
equal _ _ = false

pub equal_iff : (left right : Bytes) → (equal left right ≡ true) ↔ (left ≡ right)
unfolding equal
equal_iff [] [] = ground arith
equal_iff [] (d ∷ right) = ground arith
equal_iff (c ∷ left) [] = ground arith
equal_iff (c ∷ left) (d ∷ right) = ground (arith, equal_iff left right)

-- The text up to the first byte that ends it, and the rest from that byte on.
unfoldable pub split_at : (ℕ → Bool) → Bytes → Bytes × Bytes
split_at ends [] = ([], [])
split_at ends (c ∷ cs) =
    let (text, rest) = split_at ends cs in if ends c then ([], c ∷ cs) else (c ∷ text, rest)

module _ (ends : ℕ → Bool) (c : ℕ) (cs : Bytes) where
  pub split_at_here : ends c ≡ true → split_at ends (c ∷ cs) ≡ ([], c ∷ cs)
  unfolding split_at
  split_at_here h = ground arith

  pub split_at_later :
      ends c ≡ false → split_at ends (c ∷ cs) ≡ (c ∷ (split_at ends cs).0, (split_at ends cs).1)
  unfolding split_at
  split_at_later h = ground arith
