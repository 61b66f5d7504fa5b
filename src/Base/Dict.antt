-- ===== src/Base/Dict.antt =====
-- `std::map<std::string, std::string>` as an association list without repeated keys.
use mathlib.Core.Path.{◌≡◌, refl}
use mathlib.Core.Bool.{true, false}
use mathlib.Core.List.{List, [], ◌∷◌}
use mathlib.Core.Option.{Option, none, some}
use native.Mathlib.Omega.{arith}
use cs_3_boost_echo_static_s.Base.Tests.{if◌then◌else◌}
use cs_3_boost_echo_static_s.Base.Text.{Bytes, equal, equal_iff}

abbrev pub Dict : Type 0
Dict = List (Bytes × Bytes)

-- `m.at(key)`; `none` is the exception `std::out_of_range`.
unfoldable pub lookup : Bytes → Dict → Option Bytes
lookup k [] = none
lookup k ((j, v) ∷ m) = if equal j k then some v else lookup k m

-- `m[key] = value`
unfoldable pub assign : Bytes → Bytes → Dict → Dict
assign k v [] = (k, v) ∷ []
assign k v ((j, w) ∷ m) = if equal j k then (j, v) ∷ m else (j, w) ∷ assign k v m

-- `m[key]` reads a value, and inserts an empty one under a key that is missing.
unfoldable pub index : Bytes → Dict → Bytes × Dict
unfolding lookup assign
index k m = elim (lookup k m) [ none ↦ ([], assign k [] m) | some v ↦ (v, m) ]

-- `m.erase(key)`
unfoldable pub erase : Bytes → Dict → Dict
erase k [] = []
erase k ((j, v) ∷ m) = if equal j k then m else (j, v) ∷ erase k m

pub lookup-assign :
    (k j v : Bytes) (m : Dict)
    → lookup j (assign k v m) ≡ (if equal k j then some v else lookup j m)
unfolding lookup assign
lookup-assign k j v [] = refl
lookup-assign k j v ((i, w) ∷ m) =
    ground (arith, equal_iff k j, equal_iff i k, equal_iff i j, lookup-assign k j v m)

pub lookup-erase_ne :
    (k j : Bytes) (m : Dict) → equal k j ≡ false → lookup j (erase k m) ≡ lookup j m
unfolding lookup erase
lookup-erase_ne k j [] h = refl
lookup-erase_ne k j ((i, w) ∷ m) h =
    ground (arith, equal_iff k j, equal_iff i k, equal_iff i j, lookup-erase_ne k j m h)

pub equal_refl : (a : Bytes) → equal a a ≡ true
equal_refl a = (equal_iff a a).1 refl
