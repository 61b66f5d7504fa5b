-- ===== src/Config/Lexer.antt =====
-- `NginxConfigParser::ParseToken` of config_parser.cc. The stream is the list of the bytes not yet
-- read; a read at its end fails, and `unget` puts the byte just read back.
use cs_3_boost_echo_static_s.Base.{
  ℕ, ◌||◌, not, Bool, [], ◌∷◌, ◌++◌, Bytes, codes, ◌==◌, if◌then◌else◌,
}
use cs_3_boost_echo_static_s.Base.Int.{ℤ, pos, decrement, eq_pos}

pub data TokenType : Type 0 where
  start normal start_block end_block comment statement_end eof error : TokenType

pub data TokenParserState : Type 0 where
  initial_whitespace single_quote double_quote in_comment in_normal : TokenParserState

-- The local variables of `ParseToken`, and the out-parameter `value`. The two counters go down by one with
-- each byte of a quoted token; as an `int` they overflow behind 2 ^ 31 bytes of one token, and here they
-- have no bound.
pub record Locals : Type 0 where
  pub state : TokenParserState
  pub count_prev_single : ℤ
  pub count_prev_double : ℤ
  pub value : Bytes

-- What one round of the loop does with the byte that it read.
pub data Round : Type 0 where
  again : Locals → Round
  found : TokenType → Bytes → Round
  found_before : TokenType → Bytes → Round

-- Blanks, in the state for initial whitespace.
abbrev pub is_blank : ℕ → Bool
is_blank c = c == b' ' || c == b'\t' || c == b'\n' || c == b'\r'

-- The bytes that end a normal token. A tab stands twice in the source.
abbrev pub ends_normal : ℕ → Bool
ends_normal c =
    c == b' '
    || c == b'\t'
    || c == b'\n'
    || c == b'\t'
    || c == b';'
    || c == b'{'
    || c == b'}'
    || c == b'"'
    || c == b'\''

abbrev append_char : Locals → ℕ → Bytes
append_char l c = l.value ++ c ∷ []

round_initial : Locals → ℕ → Round
round_initial l c =
    if c == b'{'
    then found start_block (c ∷ [])
    else if c == b'}'
    then found end_block (c ∷ [])
    else if c == b'#'
    then again (record l { value = c ∷ []; state = in_comment })
    else if c == b'"'
    then again (record l { value = c ∷ []; state = double_quote })
    else if c == b'\''
    then again (record l { value = c ∷ []; state = single_quote })
    else if c == b';'
    then found statement_end (c ∷ [])
    else if is_blank c
    then again l
    else again (record l { value = append_char l c; state = in_normal })

round_single_quote : Locals → ℕ → Round
round_single_quote l c =
    let count = if c == b'\\' then pos 2 else decrement l.count_prev_single in
    let value = append_char l c in
    if c == b'\''
    then (if not (eq_pos count 1)
        then found normal value
        else again (record l { count_prev_single = count; value = value }))
    else again (record l { count_prev_single = count; value = value })

round_double_quote : Locals → ℕ → Round
round_double_quote l c =
    let count = if c == b'\\' then pos 2 else decrement l.count_prev_double in
    let value = append_char l c in
    if c == b'"'
    then (if not (eq_pos count 1)
        then found normal value
        else again (record l { count_prev_double = count; value = value }))
    else again (record l { count_prev_double = count; value = value })

round_comment : Locals → ℕ → Round
round_comment l c =
    if c == b'\n' || c == b'\r'
    then found comment l.value
    else again (record l { value = append_char l c })

round_normal : Locals → ℕ → Round
round_normal l c =
    if ends_normal c
    then found_before normal l.value
    else again (record l { value = append_char l c })

-- The switch over the state, at the byte `c`.
unfoldable pub round_in : TokenParserState → Locals → ℕ → Round
unfolding round_initial round_single_quote round_double_quote round_comment round_normal
round_in initial_whitespace l c = round_initial l c
round_in single_quote l c = round_single_quote l c
round_in double_quote l c = round_double_quote l c
round_in in_comment l c = round_comment l c
round_in in_normal l c = round_normal l c

-- What the function returns behind the loop, at the end of the file.
unfoldable pub end_of_file : TokenParserState → TokenType
end_of_file single_quote = error
end_of_file double_quote = error
end_of_file initial_whitespace = eof
end_of_file in_comment = eof
end_of_file in_normal = eof

-- The returned type, the value and the bytes left in the stream.
pub record Token : Type 0 where
  pub type : TokenType
  pub value : Bytes
  pub rest : Bytes

-- The loop over the stream.
unfoldable pub scan : Locals → Bytes → Token
scan l [] = record { type = end_of_file l.state; value = l.value; rest = [] }
scan l (c ∷ cs) = elim (round_in l.state l c) [
  | again l' ↦ scan l' cs
  | found t v ↦ record { type = t; value = v; rest = cs }
  | found_before t v ↦ record { type = t; value = v; rest = c ∷ cs }
]

abbrev pub initial : Locals
initial = record {
  state = initial_whitespace;
  count_prev_single = pos 0;
  count_prev_double = pos 0;
  value = [];
}

-- `Parse` hands over an empty string for the value.
unfoldable pub parse_token : Bytes → Token
unfolding scan round_in end_of_file
parse_token input = scan initial input

-- The text that `Parse` prints for debugging.
pub token_type_as_string : TokenType → Bytes
token_type_as_string start = codes "TOKEN_TYPE_START"
token_type_as_string normal = codes "TOKEN_TYPE_NORMAL"
token_type_as_string start_block = codes "TOKEN_TYPE_START_BLOCK"
token_type_as_string end_block = codes "TOKEN_TYPE_END_BLOCK"
token_type_as_string comment = codes "TOKEN_TYPE_COMMENT"
token_type_as_string statement_end = codes "TOKEN_TYPE_STATEMENT_END"
token_type_as_string eof = codes "TOKEN_TYPE_EOF"
token_type_as_string error = codes "TOKEN_TYPE_ERROR"
