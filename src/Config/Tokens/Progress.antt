-- ===== src/Config/Tokens/Progress.antt =====
-- Every token but the end of the file is read off a non-empty part of the stream.
use cs_3_boost_echo_static_s.Base.{
  ℕ, ◌≤◌, ◌<◌, ◌≡◌, refl, ◌⊎◌, inl, inr, [], ◌∷◌, Bytes, arith, length,
}
use cs_3_boost_echo_static_s.Config.Lexer.{
  TokenType, eof, initial_whitespace, Locals, Round, again, found, found_before, round_in,
  end_of_file, scan, initial, parse_token,
}

Round-cases :
    (r : Round)
    → ((l : Locals) × (r ≡ again l))
      ⊎ ((t : TokenType) × (v : Bytes) × (r ≡ found t v))
      ⊎ ((t : TokenType) × (v : Bytes) × (r ≡ found_before t v))
Round-cases (again l) = inl (l, refl)
Round-cases (found t v) = inr (inl (t, v, refl))
Round-cases (found_before t v) = inr (inr (t, v, refl))

scan-rest-le : (l : Locals) (input : Bytes) → length (scan l input).rest ≤ length input
unfolding scan
scan-rest-le l [] = omega arith
scan-rest-le l (c ∷ cs) = elim (Round-cases (round_in l.state l c)) [
  | inl (l', e) ↦ rw (e, scan) (omega (arith, scan-rest-le l' cs))
  | inr (inl (t, v, e)) ↦ rw (e, scan) (omega arith)
  | inr (inr (t, v, e)) ↦ rw (e, scan) (omega arith)
]

round_in-initial-ne :
    (l : Locals) (c : ℕ) (t : TokenType) (v : Bytes)
    → l.state ≡ initial_whitespace
    → round_in l.state l c ≡ found_before t v
    → ⊥
unfolding round_in
round_in-initial-ne l c t v s h = ground arith

scan-rest-lt :
    (l : Locals) (input : Bytes)
    → l.state ≡ initial_whitespace
    → ((scan l input).type ≡ eof) ⊎ (length (scan l input).rest < length input)
unfolding scan
scan-rest-lt l [] s = inl (rw s (unfold end_of_file in refl))
scan-rest-lt l (c ∷ cs) s = elim (Round-cases (round_in l.state l c)) [
  | inl (l', e) ↦ rw (e, scan) (inr (omega (arith, scan-rest-le l' cs)))
  | inr (inl (t, v, e)) ↦ rw (e, scan) (inr (omega arith))
  | inr (inr (t, v, e)) ↦ absurd (round_in-initial-ne l c t v s e)
]

pub parse_token-rest-lt :
    (input : Bytes)
    → ((parse_token input).type ≡ eof) ⊎ (length (parse_token input).rest < length input)
unfolding parse_token
parse_token-rest-lt input = scan-rest-lt initial input refl
