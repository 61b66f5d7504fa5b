-- ===== src/Config/Tokens/Reading.antt =====
-- `ParseToken` reads every token back, whatever follows it.
use cs_3_boost_echo_static_s.Base.{
  ℕ, ◌≡◌, refl, inl, inr, true, false, Bool, [], ◌∷◌, ◌++◌, append-nil, append_assoc, Bytes, arith,
  all, ◌==◌, subst, if◌then◌else◌,
}
use cs_3_boost_echo_static_s.Base.Int.{ℤ, pos, decrement, eq_pos, le_pos}
use cs_3_boost_echo_static_s.Config.Lexer.{
  TokenType, normal, single_quote, double_quote, in_normal, Locals, round_in, is_blank, ends_normal,
  Token, scan, initial, parse_token,
}
use cs_3_boost_echo_static_s.Config.Tokens.{is_bare, Quoted, close, char, IsToken, bare, quoted}

abbrev pub token : TokenType → Bytes → Bytes → Token
token t v rest = record { type = t; value = v; rest = rest }

scan-bare :
    (cs : Bytes) (l : Locals) (d : ℕ) (rest : Bytes)
    → l.state ≡ in_normal
    → all is_bare cs ≡ true
    → ends_normal d ≡ true
    → scan l (cs ++ (d ∷ rest)) ≡ token normal (l.value ++ cs) (d ∷ rest)
unfolding scan round_in
scan-bare [] l d rest s h k = ground (arith, append-nil l.value)
scan-bare (c ∷ cs) l d rest s h k = ground (
  arith,
  scan-bare cs (record l { value = l.value ++ c ∷ [] }) d rest s,
  append_assoc l.value (c ∷ []) cs,
)

-- What a counter of the lexer says of the byte before.
abbrev pub Counted : Bool → ℤ → Type 0
Counted true n = n ≡ pos 2
Counted false n = le_pos n 1 ≡ true

abbrev pub count_after : ℕ → ℤ → ℤ
count_after c n = if c == b'\\' then pos 2 else decrement n

pub Counted-count_after :
    (escaped : Bool) (c : ℕ) (n : ℤ) → Counted escaped n → Counted (c == b'\\') (count_after c n)
Counted-count_after true c n h = ground arith
Counted-count_after false c n h = ground arith

-- At a quote the test of the counter tells whether a backslash stands before it.
pub Counted-eq_pos : (escaped : Bool) (n : ℤ) → Counted escaped n → eq_pos (decrement n) 1 ≡ escaped
Counted-eq_pos true n h = ground arith
Counted-eq_pos false n h = ground arith

pub scan-single :
    {escaped : Bool} {cs : Bytes} (l : Locals) (rest : Bytes)
    → Quoted b'\'' escaped cs
    → l.state ≡ single_quote
    → Counted escaped l.count_prev_single
    → scan l (cs ++ rest) ≡ token normal (l.value ++ cs) rest
unfolding scan round_in
scan-single {escaped} l rest (close e f) s h =
    ground (arith, Counted-eq_pos escaped l.count_prev_single h)
scan-single {escaped} l rest (char {c} {cs} e r) s h = ground (
  arith,
  Counted-eq_pos escaped l.count_prev_single h,
  scan-single
      (record l {
        count_prev_single = count_after c l.count_prev_single;
        value = l.value ++ c ∷ [];
      })
      rest r s (Counted-count_after escaped c l.count_prev_single h),
  append_assoc l.value (c ∷ []) cs,
)

pub scan-double :
    {escaped : Bool} {cs : Bytes} (l : Locals) (rest : Bytes)
    → Quoted b'"' escaped cs
    → l.state ≡ double_quote
    → Counted escaped l.count_prev_double
    → scan l (cs ++ rest) ≡ token normal (l.value ++ cs) rest
unfolding scan round_in
scan-double {escaped} l rest (close e f) s h =
    ground (arith, Counted-eq_pos escaped l.count_prev_double h)
scan-double {escaped} l rest (char {c} {cs} e r) s h = ground (
  arith,
  Counted-eq_pos escaped l.count_prev_double h,
  scan-double
      (record l {
        count_prev_double = count_after c l.count_prev_double;
        value = l.value ++ c ∷ [];
      })
      rest r s (Counted-count_after escaped c l.count_prev_double h),
  append_assoc l.value (c ∷ []) cs,
)

-- A token is read back as it stands, with its quotes, if a byte follows that ends a bare word.
pub parse_token-token :
    {t : Bytes} (d : ℕ) (rest : Bytes)
    → IsToken t
    → ends_normal d ≡ true
    → parse_token (t ++ (d ∷ rest)) ≡ token normal t (d ∷ rest)
unfolding parse_token scan round_in
parse_token-token d rest (bare {c} {cs} h k) e =
    ground
      (arith, scan-bare cs (record initial { state = in_normal; value = c ∷ [] }) d rest refl k e)
parse_token-token d rest (quoted {q} {cs} (inl h) r) e =
    let r' = subst (λ x. Quoted x false cs) h r in
    ground (
      arith,
      scan-single (record initial { state = single_quote; value = q ∷ [] }) (d ∷ rest) r' refl refl,
    )
parse_token-token d rest (quoted {q} {cs} (inr h) r) e =
    let r' = subst (λ x. Quoted x false cs) h r in
    ground (
      arith,
      scan-double (record initial { state = double_quote; value = q ∷ [] }) (d ∷ rest) r' refl refl,
    )

-- Blanks before a token are skipped.
pub parse_token-blank :
    (c : ℕ) (rest : Bytes) → is_blank c ≡ true → parse_token (c ∷ rest) ≡ parse_token rest
unfolding parse_token scan round_in
parse_token-blank c rest h = ground arith
