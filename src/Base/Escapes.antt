-- ===== src/Base/Escapes.antt =====
-- What `>> std::hex` reads of two bytes.
use Prim.Native.Nat.{ℕ, ◌+◌, ◌*◌, ◌<◌}
use mathlib.Core.Bool.{Bool, true, false, ◌&&◌, ◌||◌}
use mathlib.Core.List.{[], ◌∷◌}
use mathlib.Core.Logic.{inl, inr}
use mathlib.Core.Option.{Option, none, some}
use mathlib.Core.Path.{◌≡◌, refl, sym, ap, ◌∙◌}
use native.Mathlib.Omega.{arith}
use cs_3_boost_echo_static_s.Base.Int.{ℤ, pos}
use cs_3_boost_echo_static_s.Base.Tests.{◌==◌, if◌then◌else◌, Bool-cases, Option-cases}
use cs_3_boost_echo_static_s.Base.Numbers.{
  is_space, skip_spaces, hex_digit, digits_value, unsigned_value, signed_value, hex_unsigned,
  read_hex, fits_positive, fits_negative, then_fits, negate,
}
use cs_3_boost_echo_static_s.Base.Text.{Bytes}

pub hex_digit_bound : (c d : ℕ) → hex_digit c ≡ some d → d < 16
unfolding hex_digit
hex_digit_bound c d h = ground arith

-- The value of two bytes: both are hexadecimal digits; or the second is one behind a blank or a sign; or
-- the first is one and the second is not, unless the two are the prefix `0x`.
abbrev pub two_values : ℕ → Option ℕ → Option ℤ
two_values d none = some (pos d)
two_values d (some e) = some (pos (d * 16 + e))

abbrev pub of_digit : (ℕ → ℤ) → Option ℕ → Option ℤ
of_digit f none = none
of_digit f (some d) = some (f d)

abbrev pub of_digits : Bool → Option ℕ → Option ℕ → Option ℤ
of_digits prefix none o = none
of_digits prefix (some d) o = if prefix then none else two_values d o

abbrev pub escape_value : ℕ → ℕ → Option ℤ
escape_value a b =
    if is_space a || a == b'+'
    then of_digit pos (hex_digit b)
    else if a == b'-'
    then of_digit negate (hex_digit b)
    else of_digits (a == b'0' && (b == b'x' || b == b'X')) (hex_digit a) (hex_digit b)

one_digit : (b : ℕ) → then_fits fits_positive (hex_unsigned (b ∷ [])) ≡ of_digit pos (hex_digit b)
unfolding hex_unsigned unsigned_value digits_value
one_digit b = elim (Option-cases (hex_digit b)) [
  | inl e ↦ rw (e, hex_unsigned, unsigned_value) refl
  | inr (d, e) ↦
      let k = hex_digit_bound b d e in rw (e, hex_unsigned, unsigned_value) (ground arith)
]

one_negative :
    (b : ℕ) → then_fits fits_negative (hex_unsigned (b ∷ [])) ≡ of_digit negate (hex_digit b)
unfolding hex_unsigned unsigned_value digits_value
one_negative b = elim (Option-cases (hex_digit b)) [
  | inl e ↦ rw (e, hex_unsigned, unsigned_value) refl
  | inr (d, e) ↦
      let k = hex_digit_bound b d e in rw (e, hex_unsigned, unsigned_value) (ground arith)
]

of_digits_prefix : (o o' : Option ℕ) → none ≡ of_digits true o o'
of_digits_prefix none o' = refl
of_digits_prefix (some d) o' = refl

two_plain :
    (a b : ℕ)
    → then_fits fits_positive (unsigned_value hex_digit 16 (a ∷ b ∷ []))
      ≡ of_digits false (hex_digit a) (hex_digit b)
unfolding unsigned_value digits_value
two_plain a b = elim (Option-cases (hex_digit a)) [
  | inl e ↦ rw (e, unsigned_value) refl
  | inr (d, e) ↦ elim (Option-cases (hex_digit b)) [
    | inl f ↦
        let k = hex_digit_bound a d e in
        rw (e, unsigned_value) (rw (f, digits_value) (ground arith))
    | inr (d', f) ↦
        let k = hex_digit_bound a d e in
        let k' = hex_digit_bound b d' f in
        rw (e, unsigned_value) (rw (f, digits_value) (ground arith))
  ]
]

two_digits :
    (a b : ℕ)
    → then_fits fits_positive (hex_unsigned (a ∷ b ∷ []))
      ≡ of_digits (a == b'0' && (b == b'x' || b == b'X')) (hex_digit a) (hex_digit b)
unfolding hex_unsigned unsigned_value
two_digits a b = elim (Bool-cases (a == b'0' && (b == b'x' || b == b'X'))) [
  | inl e ↦ rw (e, hex_unsigned) (of_digits_prefix (hex_digit a) (hex_digit b))
  | inr e ↦ rw (e, hex_unsigned) (two_plain a b)
]

-- A blank or a sign is no digit.
space_digit : (b : ℕ) → is_space b ≡ true → hex_digit b ≡ none
unfolding hex_digit
space_digit b h = ground arith

minus_digit : (b : ℕ) → (b == b'-') ≡ true → hex_digit b ≡ none
unfolding hex_digit
minus_digit b h = ground arith

plus_digit : (b : ℕ) → (b == b'+') ≡ true → hex_digit b ≡ none
unfolding hex_digit
plus_digit b h = ground arith

module _ (c : ℕ) (s : Bytes) where
  skip_space : is_space c ≡ true → skip_spaces (c ∷ s) ≡ skip_spaces s
  unfolding skip_spaces
  skip_space h = rw (h, skip_spaces) refl

  skip_no_space : is_space c ≡ false → skip_spaces (c ∷ s) ≡ c ∷ s
  unfolding skip_spaces
  skip_no_space h = rw (h, skip_spaces) refl

  signed_minus :
      (c == b'-') ≡ true
      → signed_value hex_unsigned (c ∷ s) ≡ then_fits fits_negative (hex_unsigned s)
  unfolding signed_value
  signed_minus h = rw (h, signed_value) refl

  signed_plus :
      (c == b'-') ≡ false
      → (c == b'+') ≡ true
      → signed_value hex_unsigned (c ∷ s) ≡ then_fits fits_positive (hex_unsigned s)
  unfolding signed_value
  signed_plus h k = rw (h, signed_value) (rw k refl)

  signed_plain :
      (c == b'-') ≡ false
      → (c == b'+') ≡ false
      → signed_value hex_unsigned (c ∷ s) ≡ then_fits fits_positive (hex_unsigned (c ∷ s))
  unfolding signed_value
  signed_plain h k = rw (h, signed_value) (rw k refl)

no_digits : none ≡ then_fits fits_positive (hex_unsigned [])
unfolding hex_unsigned unsigned_value
no_digits = refl

no_negative : none ≡ then_fits fits_negative (hex_unsigned [])
unfolding hex_unsigned unsigned_value
no_negative = refl

no_text : none ≡ signed_value hex_unsigned (skip_spaces [])
unfolding signed_value skip_spaces
no_text = refl

-- Behind a blank only a digit is a number.
behind_space :
    (b : ℕ) → signed_value hex_unsigned (skip_spaces (b ∷ [])) ≡ of_digit pos (hex_digit b)
behind_space b = elim (Bool-cases (is_space b)) [
  | inl e ↦
      ap (signed_value hex_unsigned) (skip_space b [] e) ∙ sym no_text ∙ rw (space_digit b e) refl
  | inr e ↦ ap (signed_value hex_unsigned) (skip_no_space b [] e) ∙ elim (Bool-cases (b == b'-')) [
    | inl f ↦ signed_minus b [] f ∙ sym no_negative ∙ rw (minus_digit b f) refl
    | inr f ↦ elim (Bool-cases (b == b'+')) [
      | inl g ↦ signed_plus b [] f g ∙ sym no_digits ∙ rw (plus_digit b g) refl
      | inr g ↦ signed_plain b [] f g ∙ one_digit b
    ]
  ]
]

-- Two bytes are read as the value of an escape, if they have one.
pub read_hex-two : (a b : ℕ) → read_hex (a ∷ b ∷ []) ≡ escape_value a b
unfolding read_hex
read_hex-two a b = elim (Bool-cases (is_space a)) [
  | inl e ↦ ap (signed_value hex_unsigned) (skip_space a (b ∷ []) e) ∙ behind_space b ∙ rw e refl
  | inr e ↦
      ap (signed_value hex_unsigned) (skip_no_space a (b ∷ []) e) ∙ elim (Bool-cases (a == b'-')) [
        | inl f ↦
            let g : (a == b'+') ≡ false = ground arith in
            signed_minus a (b ∷ []) f ∙ one_negative b ∙ rw (e, g, f) refl
        | inr f ↦ elim (Bool-cases (a == b'+')) [
          | inl g ↦ signed_plus a (b ∷ []) f g ∙ one_digit b ∙ rw (e, g) refl
          | inr g ↦ signed_plain a (b ∷ []) f g ∙ two_digits a b ∙ rw (e, g, f) refl
        ]
      ]
]
