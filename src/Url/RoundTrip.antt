-- ===== src/Url/RoundTrip.antt =====
-- `url_decode` undoes percent encoding, and leaves a text without escapes as it is.
use cs_3_boost_echo_static_s.Base.{
  ℕ, zero, suc, ◌+◌, ◌-◌, ◌/◌, ◌%◌, ◌<◌, ◌≡◌, refl, ◌∙◌, Option, none, some, Bool, true, false, not,
  ◌||◌, [], ◌∷◌, ◌++◌, append-nil, append_assoc, Bytes, arith, all, All, ltb, ◌==◌, ==_iff,
  if◌then◌else◌,
}
use cs_3_boost_echo_static_s.Base.Int.{ℤ, char_of_int}
use cs_3_boost_echo_static_s.Base.Numbers.{read_hex}
use cs_3_boost_echo_static_s.Url.{decode_from, url_decode}

-- The escape of one byte, in the notation of RFC 3986, with capital digits.
abbrev pub hex_char : ℕ → ℕ
hex_char d = if ltb d 10 then b'0' + d else b'A' + (d - 10)

abbrev pub percent_encode : Bytes → Bytes
percent_encode [] = []
percent_encode (c ∷ s) = b'%' ∷ hex_char (c / 16) ∷ hex_char (c % 16) ∷ percent_encode s

is_byte : Option ℤ → ℕ → Bool
is_byte none c = false
is_byte (some v) c = char_of_int v == c

is_byte_sound :
    (o : Option ℤ) (c : ℕ) → is_byte o c ≡ true → (v : ℤ) × (o ≡ some v) × (char_of_int v ≡ c)
unfolding is_byte
is_byte_sound none c h = cc
is_byte_sound (some v) c h = (v, refl, (==_iff (char_of_int v) c).0 h)

reads_back : ℕ → Bool
unfolding is_byte
reads_back c = is_byte (read_hex (hex_char (c / 16) ∷ hex_char (c % 16) ∷ [])) c

-- Every byte below a bound is read back.
reads_back_up_to : ℕ → Bool
unfolding reads_back
reads_back_up_to zero = true
reads_back_up_to (suc c) = if reads_back c then reads_back_up_to c else false

reads_back_all : reads_back_up_to 256 ≡ true
unfolding reads_back_up_to read_hex
reads_back_all = refl

reads_back_at : (bound c : ℕ) → c < bound → reads_back_up_to bound ≡ true → reads_back c ≡ true
unfolding reads_back_up_to
reads_back_at zero c lt = absurd (omega arith)
reads_back_at (suc bound) c lt = ground (arith, reads_back_at bound c)

reads_back_byte : (c : ℕ) → c < 256 → reads_back c ≡ true
reads_back_byte c h = reads_back_at 256 c h reads_back_all

-- Both digits of an escape are read, as a number below 256 that is the byte.
read_hex-hex_char :
    (c : ℕ)
    → c < 256
    → (v : ℤ) × (read_hex (hex_char (c / 16) ∷ hex_char (c % 16) ∷ []) ≡ some v)
      × (char_of_int v ≡ c)
unfolding reads_back
read_hex-hex_char c h = is_byte_sound _ c (reads_back_byte c h)

decode-percent_encode :
    (s out : Bytes) → All (λ c. c < 256) s → decode_from out (percent_encode s) ≡ some (out ++ s)
unfolding decode_from
decode-percent_encode [] out h = rw append-nil
decode-percent_encode (c ∷ s) out (h, hs) =
    let (v, e, k) = read_hex-hex_char c h in
    rw (e, decode_from) (rw k (decode-percent_encode s (out ++ c ∷ []) hs ∙ rw append_assoc))

-- Every text of bytes is read back from its percent encoding.
pub url_decode-percent_encode :
    (s : Bytes) → All (λ c. c < 256) s → url_decode (percent_encode s) ≡ some s
unfolding url_decode
url_decode-percent_encode s h = decode-percent_encode s [] h

abbrev pub is_plain : ℕ → Bool
is_plain c = not (c == b'%' || c == b'+')

decode-is_plain : (s out : Bytes) → all is_plain s ≡ true → decode_from out s ≡ some (out ++ s)
unfolding decode_from
decode-is_plain [] out h = rw append-nil
decode-is_plain (c ∷ []) out h = ground arith
decode-is_plain (c ∷ a ∷ []) out h =
    ground (arith, decode-is_plain (a ∷ []) (out ++ c ∷ []), append_assoc out (c ∷ []) (a ∷ []))
decode-is_plain (c ∷ a ∷ b ∷ s) out h =
    ground
      (arith, decode-is_plain (a ∷ b ∷ s) (out ++ c ∷ []), append_assoc out (c ∷ []) (a ∷ b ∷ s))

-- A text without a percent or a plus sign is left as it is.
pub url_decode-is_plain : (s : Bytes) → all is_plain s ≡ true → url_decode s ≡ some s
unfolding url_decode
url_decode-is_plain s h = decode-is_plain s [] h
