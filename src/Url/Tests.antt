-- ===== src/Url/Tests.antt =====
-- Runs of `url_decode`, and concrete cases of its theorems.
use cs_3_boost_echo_static_s.Url.RoundTrip.{percent_encode, url_decode-percent_encode}
use cs_3_boost_echo_static_s.Base.{
  ◌≡◌, ◌↔◌, refl, some, none, List, [], ◌∷◌, ◌++◌, map, All, codes, arith,
}
use cs_3_boost_echo_static_s.Url.Pieces.{
  Piece, IsPiece, write_pieces, meaning_of, url_decode-pieces_iff,
}
use cs_3_boost_echo_static_s.Base.Numbers.{read_hex}
use cs_3_boost_echo_static_s.Url.{url_decode}

decodes : url_decode (codes "a%2Fb+c%20d") ≡ some (codes "a/b c d")
unfolding url_decode read_hex
decodes = refl

sloppy : url_decode (codes "%+5% a%-1%4g") ≡ some (5 ∷ 10 ∷ 255 ∷ 4 ∷ [])
unfolding url_decode read_hex
sloppy = refl

refused :
    (url_decode (codes "%zz") ≡ none)
    × (url_decode (codes "ab%4") ≡ none)
    × (url_decode (codes "%0x") ≡ none)
unfolding url_decode read_hex
refused = (refl, refl, refl)

url_decode-percent_encode_example :
    url_decode (percent_encode (37 ∷ 255 ∷ [])) ≡ some (37 ∷ 255 ∷ [])
url_decode-percent_encode_example =
    url_decode-percent_encode (37 ∷ 255 ∷ []) (omega arith, (omega arith, tt))

url_decode-pieces_iff_example :
    (url_decode (codes "a%4g+") ≡ some (codes "a" ++ (4 ∷ codes " "))) ↔ (
      (ps : List Piece) × All IsPiece ps
      × (codes "a%4g+" ≡ write_pieces ps)
      × (codes "a" ++ (4 ∷ codes " ") ≡ map meaning_of ps))
url_decode-pieces_iff_example = url_decode-pieces_iff (codes "a%4g+") (codes "a" ++ (4 ∷ codes " "))
