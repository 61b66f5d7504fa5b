-- ===== src/Config/Parser.antt =====
-- `NginxConfigParser::Parse` of config_parser.cc, over a stream and over a file name. What it
-- prints to the standard output is left out.
pub mod Rounds
pub mod Steps
pub mod Invariant
pub mod Keeps
pub mod Sound
use cs_3_boost_echo_static_s.Base.{
  ℕ, zero, suc, ◌+◌, Bool, true, false, not, ◌&&◌, ◌||◌, [], ◌∷◌, Bytes, Option, none, some, length,
  ◌==◌, if◌then◌else◌,
}
use cs_3_boost_echo_static_s.Config.{NginxConfig, statement, null}
use cs_3_boost_echo_static_s.Config.Frames.{
  emplace_back, update_back, push_token, ConfigStack, push_config, pop_config, update_top,
  out_config,
}
use cs_3_boost_echo_static_s.Config.Lexer.{
  TokenType, start, normal, start_block, end_block, comment, statement_end, eof, error, parse_token,
}

-- The numbers of the enumeration, by which `==` compares.
abbrev pub number : TokenType → ℕ
number start = 0
number normal = 1
number start_block = 2
number end_block = 3
number comment = 4
number statement_end = 5
number eof = 6
number error = 7

infix 50 ◌is◌
abbrev pub ◌is◌ : TokenType → TokenType → Bool
t is u = number t == number u

pub record ParserState : Type 0 where
  pub stack : ConfigStack
  pub last_token_type : TokenType

-- One round of the loop: on to the next, `break`, `return true`, or undefined behaviour.
pub data Progress : Type 0 where
  next : ParserState → Progress
  broken : Progress
  finished : Progress
  undefined : Progress

-- The end of a round: `last_token_type = token_type`.
abbrev pub advance : TokenType → Option ConfigStack → Progress
advance t none = undefined
advance t (some s) = next (record { stack = s; last_token_type = t })

-- `top()->statements_.emplace_back(new NginxConfigStatement)`
add_statement : ConfigStack → Option ConfigStack
add_statement = update_top (λ c. some (emplace_back c (statement [] null)))

-- `top()->statements_.back().get()->tokens_.push_back(token)`
add_token : Bytes → ConfigStack → Option ConfigStack
add_token t = update_top (update_back (push_token t))

on_normal : Bytes → ParserState → Progress
on_normal token p =
    if p.last_token_type is start
      || p.last_token_type is statement_end
      || p.last_token_type is start_block
      || p.last_token_type is end_block
      || p.last_token_type is normal
    then (if not (p.last_token_type is normal)
        then elim (add_statement p.stack) [
          | none ↦ undefined
          | some s ↦ advance normal (add_token token s)
        ]
        else advance normal (add_token token p.stack))
    else broken

on_statement_end : ParserState → Progress
on_statement_end p =
    if not (p.last_token_type is normal) then broken else advance statement_end (some p.stack)

on_start_block : ParserState → Progress
on_start_block p =
    if not (p.last_token_type is normal) then broken else advance start_block (push_config p.stack)

on_end_block : ParserState → Progress
on_end_block p =
    if not (p.last_token_type is statement_end) && not (p.last_token_type is end_block)
    then broken
    else advance end_block (pop_config p.stack)

on_eof : ParserState → Progress
on_eof p =
    if not (p.last_token_type is statement_end) && not (p.last_token_type is end_block)
    then broken
    else finished

unfoldable pub on_token : TokenType → Bytes → ParserState → Progress
unfolding add_statement add_token on_normal on_statement_end on_start_block on_end_block on_eof
    push_config pop_config update_top update_back emplace_back
on_token error token p = broken
on_token comment token p = next p
on_token start token p = broken
on_token normal token p = on_normal token p
on_token statement_end token p = on_statement_end p
on_token start_block token p = on_start_block p
on_token end_block token p = on_end_block p
on_token eof token p = on_eof p

-- The returned flag with the out-parameter.
pub data ParseResult : Type 0 where
  returned : Bool → NginxConfig → ParseResult
  undefined_behaviour : ParseResult
  out_of_fuel : ParseResult

unfoldable pub parse_loop : ℕ → ParserState → Bytes → ParseResult
unfolding out_config
parse_loop zero p input = out_of_fuel
parse_loop (suc fuel) p input =
    let t = parse_token input in
    elim (on_token t.type t.value p) [
      | next p' ↦ parse_loop fuel p' t.rest
      | broken ↦ returned false (out_config p.stack)
      | finished ↦ returned true (out_config p.stack)
      | undefined ↦ undefined_behaviour
    ]

abbrev pub initial_state : NginxConfig → ParserState
initial_state config = record {
  stack = record { open_configs = config ∷ []; root = config };
  last_token_type = start;
}

-- A round that is not the last reads at least one byte, so this fuel is enough.
unfoldable pub parse : Bytes → NginxConfig → ParseResult
unfolding parse_loop on_token parse_token
parse input config = parse_loop (suc (length input)) (initial_state config) input

-- `Parse(const char*)`; the file system gives the bytes of the files that can be opened.
unfoldable pub parse_file : (Bytes → Option Bytes) → Bytes → NginxConfig → ParseResult
parse_file open_file name config = elim (open_file name) [
  | none ↦ returned false config
  | some input ↦ parse input config
]
