-- ===== src/Config/Scanner/Refines.antt =====
-- `ParseToken` reads the next token.
use cs_3_boost_echo_static_s.Base.{ℕ, ◌≡◌, refl, false, [], ◌∷◌, Bytes, arith}
use cs_3_boost_echo_static_s.Config.Lexer.{
  TokenParserState, Locals, single_quote, double_quote, in_comment, in_normal, round_in,
  end_of_file, scan, initial, parse_token,
}
use cs_3_boost_echo_static_s.Config.Scanner.{next_token}
use cs_3_boost_echo_static_s.Config.Scanner.Pieces.{
  scan-word_token, scan-comment_token, scan-single_quoted, scan-double_quoted,
}

abbrev began : TokenParserState → ℕ → Locals
began s c = record initial { state = s; value = c ∷ [] }

scan-next_token : (input : Bytes) → scan initial input ≡ next_token input
unfolding scan round_in end_of_file next_token
scan-next_token [] = refl
scan-next_token (c ∷ cs) = ground (
  arith,
  scan-next_token cs,
  scan-word_token cs (began in_normal c) refl,
  scan-comment_token cs (began in_comment c) refl,
  scan-single_quoted cs (began single_quote c) false refl refl,
  scan-double_quoted cs (began double_quote c) false refl refl,
)

-- On every input `ParseToken` returns the token, with its type and its text, that stands next in the stream
-- by the description of Config.Scanner, and leaves what follows it.
pub parse_token-next_token : (input : Bytes) → parse_token input ≡ next_token input
unfolding parse_token
parse_token-next_token input = scan-next_token input
