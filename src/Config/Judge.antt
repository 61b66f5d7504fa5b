-- ===== src/Config/Judge.antt =====
-- Which files `Parse` accepts, without its tree and its stack: an automaton over the kinds of tokens, with
-- the number of open configurations.
pub mod Moves
pub mod Refines
use cs_3_boost_echo_static_s.Base.{
  ℕ, zero, suc, Bool, true, false, ◌||◌, List, [], ◌∷◌, Bytes, if◌then◌else◌,
}
use cs_3_boost_echo_static_s.Config.Lexer.{
  TokenType, start, normal, start_block, end_block, comment, statement_end, eof, error, parse_token,
}
use cs_3_boost_echo_static_s.Config.Parser.{◌is◌}
use cs_3_boost_echo_static_s.Config.Parser.Steps.{opens, closes}

-- On with a depth and a last kind of token; or the end of the parse.
pub data Move : Type 0 where
  goes_on : ℕ → TokenType → Move
  accepts : Move
  refuses : Move
  stuck : Move

-- What a depth of zero leaves: the whole file is closed, and one more token is too many.
abbrev pub within_depth : ℕ → Move → Move
within_depth zero m = stuck
within_depth (suc depth) m = m

abbrev pub leave : ℕ → Move
leave zero = stuck
leave (suc depth) = goes_on depth end_block

unfoldable pub move : TokenType → ℕ → TokenType → Move
move normal depth last =
    if opens last || last is normal then within_depth depth (goes_on depth normal) else refuses
move statement_end depth last = if last is normal then goes_on depth statement_end else refuses
move start_block depth last = if last is normal then goes_on (suc depth) start_block else refuses
move end_block depth last = if closes last then leave depth else refuses
move eof depth last = if closes last then accepts else refuses
move comment depth last = goes_on depth last
move start depth last = refuses
move error depth last = refuses

-- The kinds of the tokens of a stream; a stream has no more tokens behind its end than the bound.
unfoldable pub kinds : ℕ → Bytes → List TokenType
kinds zero input = []
kinds (suc bound) input = let t = parse_token input in t.type ∷ kinds bound t.rest

-- The end of the parse; a row of kinds that stops too early leaves it open.
unfoldable pub judge : ℕ → TokenType → List TokenType → Move
unfolding move
judge depth last [] = goes_on depth last
judge depth last (t ∷ ts) = elim (move t depth last) [
  | goes_on d l ↦ judge d l ts
  | accepts ↦ accepts
  | refuses ↦ refuses
  | stuck ↦ stuck
]
