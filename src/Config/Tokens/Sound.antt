-- ===== src/Config/Tokens/Sound.antt =====
-- Whatever `ParseToken` returns as a normal token is one, and it stands in the stream behind blanks.
use cs_3_boost_echo_static_s.Base.{
  ℕ, ◌≡◌, refl, ap, ◌⊎◌, inl, inr, true, false, not, ◌&&◌, ◌||◌, Bool, Bool-cases, [], ◌∷◌, ◌++◌,
  Option, none, some, Bytes, arith, all, ◌==◌, ==_iff, split_at, split_at_here, split_at_later,
}
use cs_3_boost_echo_static_s.Config.Lexer.{normal, is_blank, ends_normal, Token, parse_token}
use cs_3_boost_echo_static_s.Config.Scanner.{
  split_quoted, ends_line, word_token, comment_token, quoted_token, next_token,
}
use cs_3_boost_echo_static_s.Config.Scanner.Pieces.{longer, split_quoted_close, split_quoted_char}
use cs_3_boost_echo_static_s.Config.Scanner.Refines.{parse_token-next_token}
use cs_3_boost_echo_static_s.Config.Tokens.{
  is_bare, starts_bare, Quoted, close, char, IsToken, bare, quoted,
}

split_at-parts :
    (ends : ℕ → Bool) (cs : Bytes)
    → (cs ≡ (split_at ends cs).0 ++ (split_at ends cs).1)
      × (all (λ c. not (ends c)) (split_at ends cs).0 ≡ true)
split_at-parts ends [] = unfold split_at in (refl, refl)
split_at-parts ends (c ∷ cs) = elim (Bool-cases (ends c)) [
  | inl e ↦ rw (split_at_here ends c cs e) (refl, refl)
  | inr e ↦
      let (parts, h) = split_at-parts ends cs in
      rw (split_at_later ends c cs e) (ap (◌∷◌ c) parts, rw e h)
]

-- A quoted string is found as a whole, or not at all.
abbrev Ends : ℕ → Bool → Bytes → Option (Bytes × Bytes) → Type 0
Ends q escaped cs none = Unit
Ends q escaped cs (some (text, rest)) = Quoted q escaped text × (cs ≡ text ++ rest)

Ends-longer :
    (q c : ℕ) (escaped : Bool) (cs : Bytes) (o : Option (Bytes × Bytes))
    → ((c == q) && not escaped) ≡ false
    → Ends q (c == b'\\') cs o
    → Ends q escaped (c ∷ cs) (longer c o)
Ends-longer q c escaped cs none e h = tt
Ends-longer q c escaped cs (some (text, rest)) e (h, parts) = (char e h, ap (◌∷◌ c) parts)

split_quoted-Ends :
    (q : ℕ) (escaped : Bool) (cs : Bytes) → Ends q escaped cs (split_quoted q escaped cs)
split_quoted-Ends q escaped [] = unfold split_quoted in tt
split_quoted-Ends q escaped (c ∷ cs) = elim (Bool-cases ((c == q) && not escaped)) [
  | inl e ↦ rw (split_quoted_close q c cs escaped e) (close (ground arith) (ground arith), refl)
  | inr e ↦ rw (split_quoted_char q c cs escaped e) (
      Ends-longer q c escaped cs (split_quoted q (c == b'\\') cs) e
        (split_quoted-Ends q (c == b'\\') cs))
]

-- The first byte of the stream, in the state for initial whitespace.
data First (c : ℕ) : Type 0 where
  blank : is_blank c ≡ true → First c
  word : starts_bare c ≡ true → First c
  quote : (c ≡ b'\'') ⊎ (c ≡ b'"') → First c
  hash : c ≡ b'#' → First c
  punctuation : (c ≡ b'{') ⊎ (c ≡ b'}') ⊎ (c ≡ b';') → First c

First-cases : (c : ℕ) → First c
First-cases c = elim (Bool-cases (starts_bare c)) [
  | inl e ↦ word e
  | inr e ↦ elim (Bool-cases (is_blank c)) [
    | inl f ↦ blank f
    | inr f ↦ elim (Bool-cases (c == b'#')) [
      | inl g ↦ hash ((==_iff c b'#').0 g)
      | inr g ↦ elim (Bool-cases (c == b'\'' || c == b'"')) [
        | inl k ↦ quote (ground arith)
        | inr k ↦ punctuation (ground arith)
      ]
    ]
  ]
]

-- The stream is blanks, the token and the rest.
pub record StandsIn (input : Bytes) (t : Token) : Type 0 where
  pub blanks : Bytes
  pub all_blank : all is_blank blanks ≡ true
  pub splits : input ≡ blanks ++ (t.value ++ t.rest)
  pub is_token : IsToken t.value

word_token-StandsIn :
    (c : ℕ) (cs : Bytes) (p : Bytes × Bytes)
    → starts_bare c ≡ true
    → (cs ≡ p.0 ++ p.1) × (all is_bare p.0 ≡ true)
    → (word_token (c ∷ []) p).type ≡ normal
    → StandsIn (c ∷ cs) (word_token (c ∷ []) p)
word_token-StandsIn c cs (text, []) s h t = cc
word_token-StandsIn c cs (text, d ∷ rest) s (parts, h) t = record {
  blanks = [];
  all_blank = refl;
  splits = ap (◌∷◌ c) parts;
  is_token = bare s h;
}

quoted_token-StandsIn :
    (q : ℕ) (cs : Bytes) (o : Option (Bytes × Bytes))
    → (q ≡ b'\'') ⊎ (q ≡ b'"')
    → Ends q false cs o
    → (quoted_token (q ∷ []) cs o).type ≡ normal
    → StandsIn (q ∷ cs) (quoted_token (q ∷ []) cs o)
quoted_token-StandsIn q cs none s h t = cc
quoted_token-StandsIn q cs (some (text, rest)) s (h, parts) t = record {
  blanks = [];
  all_blank = refl;
  splits = ap (◌∷◌ q) parts;
  is_token = quoted s h;
}

comment_token_ne : (v : Bytes) (p : Bytes × Bytes) → (comment_token v p).type ≡ normal → ⊥
comment_token_ne v (text, []) t = cc
comment_token_ne v (text, d ∷ rest) t = cc

-- What the first byte of the stream leads to.
module _ (c : ℕ) (cs : Bytes) where
  next_token_blank : is_blank c ≡ true → next_token (c ∷ cs) ≡ next_token cs
  unfolding next_token
  next_token_blank h = ground arith

  next_token_word :
      starts_bare c ≡ true → next_token (c ∷ cs) ≡ word_token (c ∷ []) (split_at ends_normal cs)
  unfolding next_token
  next_token_word h = ground arith

  next_token_quote :
      (c ≡ b'\'') ⊎ (c ≡ b'"')
      → next_token (c ∷ cs) ≡ quoted_token (c ∷ []) cs (split_quoted c false cs)
  unfolding next_token
  next_token_quote h = ground arith

  next_token_hash : c ≡ b'#' → next_token (c ∷ cs) ≡ comment_token (c ∷ []) (split_at ends_line cs)
  unfolding next_token
  next_token_hash h = ground arith

  next_token_punctuation :
      (c ≡ b'{') ⊎ (c ≡ b'}') ⊎ (c ≡ b';') → (next_token (c ∷ cs)).type ≡ normal → ⊥
  unfolding next_token
  next_token_punctuation h t = ground arith

next_token-StandsIn :
    (input : Bytes) → (next_token input).type ≡ normal → StandsIn input (next_token input)
next_token-StandsIn [] t = unfold next_token in cc
next_token-StandsIn (c ∷ cs) t = elim (First-cases c) [
  | blank h ↦
      let e = next_token_blank c cs h in
      let r = next_token-StandsIn cs (rw e at t) in
      rw e (record {
        blanks = c ∷ r.blanks;
        all_blank = rw h r.all_blank;
        splits = ap (◌∷◌ c) r.splits;
        is_token = r.is_token;
      })
  | word h ↦
      let e = next_token_word c cs h in
      rw e (word_token-StandsIn c cs _ h (split_at-parts ends_normal cs) (rw e at t))
  | quote h ↦
      let e = next_token_quote c cs h in
      rw e (quoted_token-StandsIn c cs _ h (split_quoted-Ends c false cs) (rw e at t))
  | hash h ↦
      absurd (comment_token_ne (c ∷ []) (split_at ends_line cs) (rw (next_token_hash c cs h) at t))
  | punctuation h ↦ absurd (next_token_punctuation c cs h t)
]

-- A normal token is a word or a quoted string of the stream, behind blanks only, and the rest of
-- the stream begins right behind it.
pub parse_token-StandsIn :
    (input : Bytes) → (parse_token input).type ≡ normal → StandsIn input (parse_token input)
parse_token-StandsIn input t =
    let e = parse_token-next_token input in rw e (next_token-StandsIn input (rw e at t))
