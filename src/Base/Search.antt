-- ===== src/Base/Search.antt =====
-- The searches in a `std::string` that the sources call.
use Prim.Native.Nat.{ℕ, zero, suc}
use mathlib.Core.Bool.{Bool, true, false, ◌&&◌}
use mathlib.Core.List.{[], ◌∷◌}
use mathlib.Core.Option
use mathlib.Core.Option.{Option, none, some}
use cs_3_boost_echo_static_s.Base.Tests.{◌==◌, if◌then◌else◌}
use cs_3_boost_echo_static_s.Base.Text.{Bytes}

-- The text begins with `needle`.
unfoldable pub starts_with : Bytes → Bytes → Bool
starts_with [] text = true
starts_with (n ∷ needle) [] = false
starts_with (n ∷ needle) (c ∷ text) = n == c && starts_with needle text

-- `text.find(needle)`; `none` is `npos`.
unfoldable pub find : Bytes → Bytes → Option ℕ
find needle [] = if starts_with needle [] then some 0 else none
find needle (c ∷ text) =
    if starts_with needle (c ∷ text) then some 0 else Option.map suc (find needle text)

-- `text.erase(position, count)` for a position inside the text.
unfoldable pub erase_at : ℕ → ℕ → Bytes → Bytes
erase_at (suc p) n (c ∷ text) = c ∷ erase_at p n text
erase_at zero (suc n) (c ∷ text) = erase_at zero n text
erase_at _ _ text = text

-- `text.find_last_of(c)` for one byte `c`.
unfoldable pub find_last_of : ℕ → Bytes → Option ℕ
find_last_of b [] = none
find_last_of b (c ∷ text) = elim (find_last_of b text) [
  | some i ↦ some (suc i)
  | none ↦ if c == b then some 0 else none
]

-- `text.substr(position)`
unfoldable pub substr : ℕ → Bytes → Bytes
substr zero text = text
substr (suc p) [] = []
substr (suc p) (c ∷ text) = substr p text

-- `text.c_str()`, as a C function reads it: up to the first zero byte.
unfoldable pub c_str : Bytes → Bytes
c_str [] = []
c_str (c ∷ text) = if c == 0 then [] else c ∷ c_str text

abbrev pub contains : Bytes → Bytes → Bool
contains needle text = elim (find needle text) [ none ↦ false | some _ ↦ true ]
