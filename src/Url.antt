-- ===== src/Url.antt =====
-- `StaticHandler::url_decode` of StaticHandler.cc. The out-parameter is read only after success.
pub mod RoundTrip
pub mod Pieces
mod Tests
use cs_3_boost_echo_static_s.Base.{
  ℕ, Option, none, some, [], ◌∷◌, ◌++◌, Bytes, ◌==◌, if◌then◌else◌, Bool, true, false,
}
use cs_3_boost_echo_static_s.Base.Int.{char_of_int}
use cs_3_boost_echo_static_s.Base.Numbers.{read_hex}

-- The loop; `in.substr(i + 1, 2)` is the two bytes behind the percent sign, if there are two.
unfoldable pub decode_from : Bytes → Bytes → Option Bytes
decode_from out [] = some out
decode_from out (c ∷ []) =
    if c == b'%' then none else if c == b'+' then some (out ++ b' ' ∷ []) else some (out ++ c ∷ [])
decode_from out (c ∷ a ∷ []) =
    let space = decode_from (out ++ b' ' ∷ []) (a ∷ []) in
    let same = decode_from (out ++ c ∷ []) (a ∷ []) in
    if c == b'%' then none else if c == b'+' then space else same
decode_from out (c ∷ a ∷ b ∷ rest) =
    let escape : Option Bytes = elim (read_hex (a ∷ b ∷ [])) [
      | none ↦ none
      | some value ↦ decode_from (out ++ char_of_int value ∷ []) rest
    ] in
    let space = decode_from (out ++ b' ' ∷ []) (a ∷ b ∷ rest) in
    let same = decode_from (out ++ c ∷ []) (a ∷ b ∷ rest) in
    if c == b'%' then escape else if c == b'+' then space else same

unfoldable pub url_decode : Bytes → Option Bytes
unfolding decode_from
url_decode = decode_from []
