-- ===== src/Config/Parser/Rounds.antt =====
-- Rounds of the loop of `Parse`: enough fuel is given, and how much is given makes no difference.
use cs_3_boost_echo_static_s.Base.{
  ℕ, zero, suc, ◌<◌, ◌≡◌, ◌≢◌, refl, sym, ◌∙◌, ap, ◌⊎◌, inl, inr, true, Bytes, arith, length,
}
use cs_3_boost_echo_static_s.Config.{NginxConfig}
use cs_3_boost_echo_static_s.Config.Frames.{out_config}
use cs_3_boost_echo_static_s.Config.Lexer.{TokenType, eof, Token, parse_token}
use cs_3_boost_echo_static_s.Config.Parser.{
  ParserState, Progress, next, broken, finished, undefined, on_token, ParseResult, returned,
  out_of_fuel, undefined_behaviour, parse_loop, initial_state, parse,
}
use cs_3_boost_echo_static_s.Config.Tokens.Progress.{parse_token-rest-lt}

pub Progress-cases :
    (r : Progress)
    → ((p : ParserState) × (r ≡ next p)) ⊎ (r ≡ broken) ⊎ (r ≡ finished) ⊎ (r ≡ undefined)
Progress-cases (next p) = inl (p, refl)
Progress-cases broken = inr (inl refl)
Progress-cases finished = inr (inr (inl refl))
Progress-cases undefined = inr (inr (inr refl))

on_token-eof-ne :
    (t : TokenType) (v : Bytes) (p q : ParserState) → t ≡ eof → on_token t v p ≢ next q
unfolding on_token
on_token-eof-ne t v p q e h = ground arith

-- A round that is followed by another leaves fewer bytes.
pub round-rest-lt :
    (input : Bytes) (p q : ParserState)
    → on_token (parse_token input).type (parse_token input).value p ≡ next q
    → length (parse_token input).rest < length input
round-rest-lt input p q h = elim (parse_token-rest-lt input) [
  | inl e ↦ absurd (on_token-eof-ne _ _ p q e h)
  | inr lt ↦ lt
]

parse_loop_enough :
    (f g : ℕ) (p : ParserState) (input : Bytes)
    → length input < f
    → length input < g
    → parse_loop f p input ≡ parse_loop g p input
unfolding parse_loop
parse_loop_enough zero g p input h k = absurd (omega arith)
parse_loop_enough (suc f) zero p input h k = absurd (omega arith)
parse_loop_enough (suc f) (suc g) p input h k =
    elim (Progress-cases (on_token (parse_token input).type (parse_token input).value p)) [
      | inl (q, e) ↦
          let lt = round-rest-lt input p q e in
          rw (e, parse_loop)
            (parse_loop_enough f g q (parse_token input).rest (omega arith) (omega arith))
      | inr (inl e) ↦ rw (e, parse_loop)
      | inr (inr (inl e)) ↦ rw (e, parse_loop)
      | inr (inr (inr e)) ↦ rw (e, parse_loop)
    ]

parse_loop-total :
    (f : ℕ) (p : ParserState) (input : Bytes)
    → length input < f
    → parse_loop f p input ≢ out_of_fuel
unfolding parse_loop
parse_loop-total zero p input h = absurd (omega arith)
parse_loop-total (suc f) p input h =
    elim (Progress-cases (on_token (parse_token input).type (parse_token input).value p)) [
      | inl (q, e) ↦
          let lt = round-rest-lt input p q e in
          rw (e, parse_loop) (parse_loop-total f q (parse_token input).rest (omega arith))
      | inr (inl e) ↦ rw (e, parse_loop) (cc)
      | inr (inr (inl e)) ↦ rw (e, parse_loop) (cc)
      | inr (inr (inr e)) ↦ rw (e, parse_loop) (cc)
    ]

-- The loop from a given state, with the fuel that the stream needs.
pub parse_from : ParserState → Bytes → ParseResult
parse_from p input = parse_loop (suc (length input)) p input

pub parse-parse_from :
    (input : Bytes) (c : NginxConfig) → parse input c ≡ parse_from (initial_state c) input
unfolding parse parse_from
parse-parse_from input c = refl

-- The loop of `Parse` ends on every input, with an answer or in undefined behaviour: the fuel is never used
-- up.
pub parse-ne-out_of_fuel : (input : Bytes) (c : NginxConfig) → parse input c ≢ out_of_fuel
unfolding parse
parse-ne-out_of_fuel input c =
    parse_loop-total (suc (length input)) (initial_state c) input (omega arith)

-- One round that is followed by another.
pub parse_from-next :
    (p q : ParserState) (input : Bytes)
    → on_token (parse_token input).type (parse_token input).value p ≡ next q
    → parse_from p input ≡ parse_from q (parse_token input).rest
unfolding parse_from parse_loop
parse_from-next p q input e =
    let lt = round-rest-lt input p q e in
    rw (e, parse_loop)
      (parse_loop_enough (length input) (suc (length (parse_token input).rest)) q
        (parse_token input).rest (omega arith) (omega arith))

-- The last round, at the end of a valid file.
pub parse_from-finished :
    (p : ParserState) (input : Bytes)
    → on_token (parse_token input).type (parse_token input).value p ≡ finished
    → parse_from p input ≡ returned true (out_config p.stack)
unfolding parse_from parse_loop
parse_from-finished p input e = rw (e, parse_loop)

-- A round that is undefined.
pub parse_from-undefined :
    (p : ParserState) (input : Bytes)
    → on_token (parse_token input).type (parse_token input).value p ≡ undefined
    → parse_from p input ≡ undefined_behaviour
unfolding parse_from parse_loop
parse_from-undefined p input e = rw (e, parse_loop)

-- A round depends only on the token that is read.
pub parse_from-eq_of_token :
    (p : ParserState) (a b : Bytes)
    → parse_token a ≡ parse_token b
    → parse_from p a ≡ parse_from p b
parse_from-eq_of_token p a b h =
    elim (Progress-cases (on_token (parse_token b).type (parse_token b).value p)) [
      | inl (q, e) ↦
          parse_from-next p q a (rw h e)
          ∙ ap (λ t. parse_from q (Token.rest t)) h
          ∙ sym (parse_from-next p q b e)
      | inr (inl e) ↦ unfold parse_from parse_loop in rw (h, e, parse_loop)
      | inr (inr (inl e)) ↦ unfold parse_from parse_loop in rw (h, e, parse_loop)
      | inr (inr (inr e)) ↦ unfold parse_from parse_loop in rw (h, e, parse_loop)
    ]
