-- ===== src/Config/Reader/Run.antt =====
-- Rounds of the loop of `Parse`, over a row of tokens.
use cs_3_boost_echo_static_s.Base.{
  ℕ, zero, suc, ◌≡◌, refl, inl, inr, true, false, List, [], ◌∷◌, Bytes, Option, none, some, arith,
}
use cs_3_boost_echo_static_s.Config.{NginxConfig}
use cs_3_boost_echo_static_s.Config.Frames.{ConfigStack, pop_config, close_onto, out_config}
use cs_3_boost_echo_static_s.Config.Lexer.{
  TokenType, start, start_block, end_block, comment, statement_end, eof, error, Token, parse_token,
}
use cs_3_boost_echo_static_s.Config.Parser.{
  ParserState, next, broken, finished, undefined, advance, on_token, ParseResult, returned,
  out_of_fuel, undefined_behaviour, parse_loop,
}
use cs_3_boost_echo_static_s.Config.Parser.Rounds.{Progress-cases}
use cs_3_boost_echo_static_s.Config.Parser.Steps.{at, opens, closes}
use cs_3_boost_echo_static_s.Config.Scanner.{Lexeme, lexemes, next_token}
use cs_3_boost_echo_static_s.Config.Scanner.Refines.{parse_token-next_token}

-- The loop of `Parse` over a row of tokens.
unfoldable pub run : ParserState → List Lexeme → ParseResult
run p [] = out_of_fuel
run p ((t, v) ∷ ts) = elim (on_token t v p) [
  | next q ↦ run q ts
  | broken ↦ returned false (out_config p.stack)
  | finished ↦ returned true (out_config p.stack)
  | undefined ↦ undefined_behaviour
]

pub parse_loop-run :
    (f : ℕ) (p : ParserState) (input : Bytes) → parse_loop f p input ≡ run p (lexemes f input)
unfolding parse_loop run lexemes
parse_loop-run zero p input = refl
parse_loop-run (suc f) p input = elim (Progress-cases (on_token t.type t.value p)) [
  | inl (q, e) ↦ rw (read, e, parse_loop, run) (rw read (parse_loop-run f q t.rest))
  | inr (inl e) ↦ rw (read, e, parse_loop, run) refl
  | inr (inr (inl e)) ↦ rw (read, e, parse_loop, run) refl
  | inr (inr (inr e)) ↦ rw (read, e, parse_loop, run) refl
]
  where
    t : Token
    t = next_token input

    read : parse_token input ≡ t
    read = parse_token-next_token input

pub run-nil : (p : ParserState) → run p [] ≡ out_of_fuel
unfolding run
run-nil p = refl

-- How the loop goes on behind a block that is on top of a stack.
unfoldable pub popped : Option ConfigStack → List Lexeme → ParseResult
popped none ts = undefined_behaviour
popped (some s) ts = run (record { stack = s; last_token_type = end_block }) ts

module _ (t : TokenType) (v : Bytes) (p : ParserState) (ts : List Lexeme) where
  pub run-next : (q : ParserState) → on_token t v p ≡ next q → run p ((t, v) ∷ ts) ≡ run q ts
  unfolding run
  run-next q e = rw (e, run) refl

  pub run-pop :
      (o : Option ConfigStack)
      → on_token t v p ≡ advance end_block o
      → run p ((t, v) ∷ ts) ≡ popped o ts
  unfolding run popped
  run-pop none e = rw (e, run) refl
  run-pop (some s) e = rw (e, run) refl

-- The tokens that end a statement, a block or the file, by the token in front of them.
module _ (v : Bytes) (p : ParserState) where
  pub end_block-pop :
      closes p.last_token_type ≡ true
      → on_token end_block v p ≡ advance end_block (pop_config p.stack)
  unfolding on_token
  end_block-pop h = ground arith

  pub end_block-broken : closes p.last_token_type ≡ false → on_token end_block v p ≡ broken
  unfolding on_token
  end_block-broken h = ground arith

  pub eof-finished : closes p.last_token_type ≡ true → on_token eof v p ≡ finished
  unfolding on_token
  eof-finished h = ground arith

  pub eof-broken : closes p.last_token_type ≡ false → on_token eof v p ≡ broken
  unfolding on_token
  eof-broken h = ground arith

  pub start-broken : on_token start v p ≡ broken
  unfolding on_token
  start-broken = refl

  pub error-broken : on_token error v p ≡ broken
  unfolding on_token
  error-broken = refl

  pub comment-next : on_token comment v p ≡ next p
  unfolding on_token
  comment-next = refl

  pub start_block-broken : opens p.last_token_type ≡ true → on_token start_block v p ≡ broken
  unfolding on_token
  start_block-broken h = ground arith

  pub statement_end-broken : opens p.last_token_type ≡ true → on_token statement_end v p ≡ broken
  unfolding on_token
  statement_end-broken h = ground arith

-- The last rounds.
module _ (top : NginxConfig) (below : List NginxConfig) (root : NginxConfig) (last : TokenType)
    (t : TokenType) (v : Bytes) (ts : List Lexeme) where
  pub run-wrong :
      on_token t v (at (top ∷ below) root last) ≡ broken
      → run (at (top ∷ below) root last) ((t, v) ∷ ts) ≡ returned false (close_onto top below)
  unfolding run out_config
  run-wrong e = rw (e, run) refl

  pub run-finished :
      on_token t v (at (top ∷ below) root last) ≡ finished
      → run (at (top ∷ below) root last) ((t, v) ∷ ts) ≡ returned true (close_onto top below)
  unfolding run out_config
  run-finished e = rw (e, run) refl
