-- ===== src/Config/Tokens.antt =====
-- The texts that `ParseToken` returns as normal tokens, described without its loop: a bare word, or
-- a quoted string that ends at its first unescaped quote.
pub mod Progress
pub mod Reading
pub mod Sound
use cs_3_boost_echo_static_s.Base.{
  ℕ, Bool, true, false, not, ◌&&◌, ◌||◌, ◌≡◌, ◌⊎◌, ◌≢◌, [], ◌∷◌, ◌++◌, Bytes, all, All, ◌==◌,
}
use cs_3_boost_echo_static_s.Config.Lexer.{is_blank, ends_normal}

-- The bytes that can begin a bare word: no brace, quote, semicolon, hash sign or blank.
abbrev pub starts_bare : ℕ → Bool
starts_bare c =
    not (c == b'{' || c == b'}' || c == b'#' || c == b'"' || c == b'\'' || c == b';' || is_blank c)

abbrev pub is_bare : ℕ → Bool
is_bare c = not (ends_normal c)

-- The text behind an opening quote `q`, up to and with its closing quote; the flag says that the
-- byte before the text is a backslash.
pub data Quoted (q : ℕ) : Bool → Bytes → Type 0 where
  close : {escaped : Bool} {c : ℕ} → c ≡ q → escaped ≡ false → Quoted q escaped (c ∷ [])
  char :
      {escaped : Bool} {c : ℕ} {cs : Bytes}
      → ((c == q) && not escaped) ≡ false
      → Quoted q (c == b'\\') cs
      → Quoted q escaped (c ∷ cs)

pub data IsToken : Bytes → Type 0 where
  bare : {c : ℕ} {cs : Bytes} → starts_bare c ≡ true → all is_bare cs ≡ true → IsToken (c ∷ cs)
  quoted : {q : ℕ} {cs : Bytes} → (q ≡ b'\'') ⊎ (q ≡ b'"') → Quoted q false cs → IsToken (q ∷ cs)

pub IsToken-ne-nil : {t : Bytes} → IsToken t → t ≢ []
IsToken-ne-nil (bare _ _) = cc
IsToken-ne-nil (quoted _ _) = cc
