-- ===== src/Url/Pieces.antt =====
-- The texts that `url_decode` takes, described without its loop.
use cs_3_boost_echo_static_s.Base.{
  ℕ, ◌≡◌, ◌↔◌, refl, sym, ap, ◌∙◌, inl, inr, false, Bool-cases, none, some, Option-cases, List, [],
  ◌∷◌, ◌++◌, map, append-nil, append_assoc, All, Bytes, ◌==◌, ==_iff,
}
use mathlib.Core.Option.{some-injective}
use cs_3_boost_echo_static_s.Base.Escapes.{escape_value, read_hex-two}
use cs_3_boost_echo_static_s.Base.Int.{ℤ, char_of_int}
use cs_3_boost_echo_static_s.Url.{decode_from, url_decode}

-- A byte that stands for itself, a plus sign, or an escape with its two bytes and its value.
pub data Piece : Type 0 where
  itself : ℕ → Piece
  plus : Piece
  escape : ℕ → ℕ → ℤ → Piece

abbrev pub IsPiece : Piece → Type 0
IsPiece (itself c) = ((c == b'%') ≡ false) × ((c == b'+') ≡ false)
IsPiece plus = Unit
IsPiece (escape a b v) = escape_value a b ≡ some v

-- The text of the pieces, and what they stand for.
abbrev pub write_pieces : List Piece → Bytes
write_pieces [] = []
write_pieces (itself c ∷ ps) = c ∷ write_pieces ps
write_pieces (plus ∷ ps) = b'+' ∷ write_pieces ps
write_pieces (escape a b v ∷ ps) = b'%' ∷ a ∷ b ∷ write_pieces ps

abbrev pub meaning_of : Piece → ℕ
meaning_of (itself c) = c
meaning_of plus = b' '
meaning_of (escape a b v) = char_of_int v

-- One round of the loop.
decode_itself :
    (c : ℕ) (s out : Bytes)
    → (c == b'%') ≡ false
    → (c == b'+') ≡ false
    → decode_from out (c ∷ s) ≡ decode_from (out ++ c ∷ []) s
unfolding decode_from
decode_itself c [] out h k = rw (h, decode_from) (rw k refl)
decode_itself c (a ∷ []) out h k = rw (h, decode_from) (rw k refl)
decode_itself c (a ∷ b ∷ s) out h k = rw (h, decode_from) (rw k refl)

decode_plus : (s out : Bytes) → decode_from out (b'+' ∷ s) ≡ decode_from (out ++ b' ' ∷ []) s
unfolding decode_from
decode_plus [] out = refl
decode_plus (a ∷ []) out = refl
decode_plus (a ∷ b ∷ s) out = refl

decode_escape :
    (a b : ℕ) (v : ℤ) (s out : Bytes)
    → escape_value a b ≡ some v
    → decode_from out (b'%' ∷ a ∷ b ∷ s) ≡ decode_from (out ++ char_of_int v ∷ []) s
unfolding decode_from
decode_escape a b v s out h = rw (read_hex-two a b ∙ h, decode_from) refl

decode_refused :
    (a b : ℕ) (s out : Bytes) → escape_value a b ≡ none → decode_from out (b'%' ∷ a ∷ b ∷ s) ≡ none
unfolding decode_from
decode_refused a b s out h = rw (read_hex-two a b ∙ h, decode_from) refl

decode-write_pieces :
    (ps : List Piece) (out : Bytes)
    → All IsPiece ps
    → decode_from out (write_pieces ps) ≡ some (out ++ map meaning_of ps)
decode-write_pieces [] out h = unfold decode_from in rw append-nil refl
decode-write_pieces (itself c ∷ ps) out ((h, k), hs) =
    decode_itself c (write_pieces ps) out h k
    ∙ decode-write_pieces ps (out ++ c ∷ []) hs
    ∙ rw append_assoc refl
decode-write_pieces (plus ∷ ps) out (h, hs) =
    decode_plus (write_pieces ps) out
    ∙ decode-write_pieces ps (out ++ b' ' ∷ []) hs
    ∙ rw append_assoc refl
decode-write_pieces (escape a b v ∷ ps) out (h, hs) =
    decode_escape a b v (write_pieces ps) out h
    ∙ decode-write_pieces ps (out ++ char_of_int v ∷ []) hs
    ∙ rw append_assoc refl

-- A text that is decoded is the text of pieces.
abbrev Pieced : Bytes → Type 0
Pieced s = (ps : List Piece) × All IsPiece ps × (s ≡ write_pieces ps)

with_itself :
    (c : ℕ) (s : Bytes) → (c == b'%') ≡ false → (c == b'+') ≡ false → Pieced s → Pieced (c ∷ s)
with_itself c s h k (ps, a, e) = (itself c ∷ ps, ((h, k), a), ap (◌∷◌ c) e)

with_plus : (s : Bytes) → Pieced s → Pieced (b'+' ∷ s)
with_plus s (ps, a, e) = (plus ∷ ps, (tt, a), ap (◌∷◌ b'+') e)

with_escape :
    (a b : ℕ) (v : ℤ) (s : Bytes) → escape_value a b ≡ some v → Pieced s → Pieced (b'%' ∷ a ∷ b ∷ s)
with_escape a b v s h (ps, k, e) = (escape a b v ∷ ps, (h, k), ap (λ x. b'%' ∷ a ∷ b ∷ x) e)

-- A round at a byte that is no percent sign.
behind_byte :
    (c : ℕ) (s out r : Bytes)
    → (c == b'%') ≡ false
    → ((out' : Bytes) → decode_from out' s ≡ some r → Pieced s)
    → decode_from out (c ∷ s) ≡ some r
    → Pieced (c ∷ s)
behind_byte c s out r f ih h = elim (Bool-cases (c == b'+')) [
  | inl g ↦
      let e = (==_iff c b'+').0 g in
      rw e (with_plus s (ih (out ++ b' ' ∷ []) (sym (decode_plus s out) ∙ (rw e at h))))
  | inr g ↦ with_itself c s f g (ih (out ++ c ∷ []) (sym (decode_itself c s out f g) ∙ h))
]

-- An escape wants two bytes.
cut_off : (out r : Bytes) → decode_from out (b'%' ∷ []) ≡ some r → ⊥
unfolding decode_from
cut_off out r h = cc

cut_short : (a : ℕ) (out r : Bytes) → decode_from out (b'%' ∷ a ∷ []) ≡ some r → ⊥
unfolding decode_from
cut_short a out r h = cc

decode-Pieced : (s out r : Bytes) → decode_from out s ≡ some r → Pieced s
decode-Pieced [] out r h = ([], tt, refl)
decode-Pieced (c ∷ []) out r h = elim (Bool-cases (c == b'%')) [
  | inl f ↦ let e = (==_iff c b'%').0 f in absurd (cut_off out r (rw e at h))
  | inr f ↦ behind_byte c [] out r f (λ out' k. decode-Pieced [] out' r k) h
]
decode-Pieced (c ∷ a ∷ []) out r h = elim (Bool-cases (c == b'%')) [
  | inl f ↦ let e = (==_iff c b'%').0 f in absurd (cut_short a out r (rw e at h))
  | inr f ↦ behind_byte c (a ∷ []) out r f (λ out' k. decode-Pieced (a ∷ []) out' r k) h
]
decode-Pieced (c ∷ a ∷ b ∷ s) out r h = elim (Bool-cases (c == b'%')) [
  | inl f ↦
      let e = (==_iff c b'%').0 f in
      let k : decode_from out (b'%' ∷ a ∷ b ∷ s) ≡ some r = rw e at h in
      rw e (elim (Option-cases (escape_value a b)) [
        | inl n ↦ absurd (cc (decode_refused a b s out n, k))
        | inr (v, w) ↦
            with_escape a b v s w (
              decode-Pieced s (out ++ char_of_int v ∷ []) r (sym (decode_escape a b v s out w) ∙ k))
      ])
  | inr f ↦ behind_byte c (a ∷ b ∷ s) out r f (λ out' k. decode-Pieced (a ∷ b ∷ s) out' r k) h
]

-- A text is decoded to another exactly if it is a row of bytes other than percent and plus signs, of plus
-- signs, and of escapes, and the other text is what these stand for: themselves, blanks, and the values
-- of the escapes. An escape has a value if two hexadecimal digits follow the percent sign; but also with
-- one digit behind a blank or a sign, or in front of a byte that is no digit, unless the two are `0x`.
pub url_decode-pieces_iff :
    (s out : Bytes)
    → (url_decode s ≡ some out)
      ↔ ((ps : List Piece) × All IsPiece ps × (s ≡ write_pieces ps) × (out ≡ map meaning_of ps))
unfolding url_decode
url_decode-pieces_iff s out = (
  λ h.
      let (ps, a, e) = decode-Pieced s [] out h in
      (ps, a, e, some-injective _ _ (sym h ∙ ap (decode_from []) e ∙ decode-write_pieces ps [] a)),
  λ (ps, a, e, k). ap (decode_from []) e ∙ decode-write_pieces ps [] a ∙ ap some (sym k),
)
