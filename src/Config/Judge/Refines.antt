-- ===== src/Config/Judge/Refines.antt =====
-- `Parse` answers as the automaton does.
use cs_3_boost_echo_static_s.Base.{
  Option, none, some, ℕ, zero, suc, ◌<◌, ◌≡◌, refl, inl, inr, true, false, Bytes, arith, length,
}
use cs_3_boost_echo_static_s.Config.{nil}
use cs_3_boost_echo_static_s.Config.Judge.{Move, accepts, refuses, stuck, move, kinds, judge}
use cs_3_boost_echo_static_s.Config.Lexer.{start, Token, parse_token}
use cs_3_boost_echo_static_s.Config.Parser.Invariant.{Inv}
use cs_3_boost_echo_static_s.Config.Parser.Keeps.{Keeps, on_token-Keeps}
use cs_3_boost_echo_static_s.Config.Parser.Rounds.{Progress-cases, round-rest-lt}
use cs_3_boost_echo_static_s.Config.Parser.{
  ParserState, on_token, ParseResult, returned, undefined_behaviour, out_of_fuel, parse_loop,
  initial_state, parse,
}
use cs_3_boost_echo_static_s.Config.Printable.{none_left}
use cs_3_boost_echo_static_s.Config.Tokens.Sound.{parse_token-StandsIn}
use cs_3_boost_echo_static_s.Config.Judge.Moves.{move_of, token-move}

-- The end of a parse, seen by the automaton.
abbrev pub verdict : ParseResult → Option Move
verdict (returned true c) = some accepts
verdict (returned false c) = some refuses
verdict undefined_behaviour = some stuck
verdict out_of_fuel = none

parse_loop-judge :
    (f : ℕ) (p : ParserState) (input : Bytes)
    → length input < f
    → Inv p
    → verdict (parse_loop f p input)
      ≡ some (judge (length p.stack.open_configs) p.last_token_type (kinds f input))
unfolding parse_loop judge kinds
parse_loop-judge zero p input h i = absurd (omega arith)
parse_loop-judge (suc f) p input h i = elim (Progress-cases (on_token t.type t.value p)) [
  | inl (q, e) ↦
      let lt = round-rest-lt input p q e in
      rw (e, parse_loop)
        (rw (← step, e, judge) (parse_loop-judge f q t.rest (omega arith) (rw e at kept)))
  | inr (inl e) ↦ rw (e, parse_loop) (rw (← step, e, judge) refl)
  | inr (inr (inl e)) ↦ rw (e, parse_loop) (rw (← step, e, judge) refl)
  | inr (inr (inr e)) ↦ rw (e, parse_loop) (rw (← step, e, judge) refl)
]
  where
    t : Token
    t = parse_token input

    kept : Keeps (on_token t.type t.value p)
    kept = on_token-Keeps t.type t.value p (λ n. (parse_token-StandsIn input n).is_token) i

    step :
        move_of (on_token t.type t.value p)
        ≡ move t.type (length p.stack.open_configs) p.last_token_type
    step = token-move t.type t.value p.stack.open_configs p.stack.root p.last_token_type i

-- Whether `Parse` accepts a file, refuses it or is undefined depends only on the kinds of its tokens, and
-- is what the automaton says of these, from a depth of one: the empty configuration is open.
pub parse-judge :
    (input : Bytes)
    → verdict (parse input nil) ≡ some (judge 1 start (kinds (suc (length input)) input))
unfolding parse
parse-judge input =
    parse_loop-judge (suc (length input)) (initial_state nil) input (omega arith) (none_left, tt)
