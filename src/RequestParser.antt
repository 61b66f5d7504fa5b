-- ===== src/RequestParser.antt =====
-- request_parser.cc, and `parse` of request_handler.h: the HTTP request parser, one byte at a time.
pub mod Chars
pub mod Runs
pub mod Grammar
pub mod Complete
pub mod Safe
pub mod Chunks
pub mod Inversion
pub mod Lines
pub mod Sound
pub mod Viable
pub mod Uri
pub mod Interface
mod Tests
use cs_3_boost_echo_static_s.Base.{
  ℕ, Bool, true, false, not, ◌&&◌, ◌||◌, Option, none, some, List, [], ◌∷◌, ◌++◌, Bytes, ◌==◌,
  if◌then◌else◌,
}
use cs_3_boost_echo_static_s.Base.Int.{int_of_char}
use cs_3_boost_echo_static_s.Http.{Headers, HttpRequest}
use cs_3_boost_echo_static_s.RequestParser.Chars.{is_char, is_ctl, is_tspecial, is_digit}

pub data State : Type 0 where
  method_start method uri_start uri : State
  http_version_h http_version_t_1 http_version_t_2 http_version_p http_version_slash : State
  http_version_major_start http_version_major http_version_minor_start http_version_minor : State
  expecting_newline_1 header_line_start header_lws header_name : State
  space_before_header_value header_value expecting_newline_2 expecting_newline_3 : State

-- The answer of `parse`, as its comment reads the three values of `boost::tribool`: true is a
-- complete request, false is invalid data, and indeterminate asks for more data.
pub data Verdict : Type 0 where
  complete invalid indeterminate : Verdict

-- `result || !result`, which holds of true and of false.
abbrev pub is_determinate : Verdict → Bool
is_determinate complete = true
is_determinate invalid = true
is_determinate indeterminate = false

-- The answer, with the parser's state and the request after the call.
pub record Consumed : Type 0 where
  pub result : Verdict
  pub state : State
  pub req : HttpRequest

-- `headers_.back().first.push_back(c)`; on an empty vector it is undefined.
unfoldable pub push_first : ℕ → Headers → Option Headers
push_first c [] = none
push_first c ((n, v) ∷ []) = some ((n ++ c ∷ [], v) ∷ [])
push_first c (h ∷ g ∷ hs) = elim (push_first c (g ∷ hs)) [ none ↦ none | some r ↦ some (h ∷ r) ]

-- `headers_.back().second.push_back(c)`
unfoldable pub push_second : ℕ → Headers → Option Headers
push_second c [] = none
push_second c ((n, v) ∷ []) = some ((n, v ++ c ∷ []) ∷ [])
push_second c (h ∷ g ∷ hs) = elim (push_second c (g ∷ hs)) [ none ↦ none | some r ↦ some (h ∷ r) ]

abbrev pub is_empty : Headers → Bool
is_empty [] = true
is_empty (_ ∷ _) = false

-- `return boost::indeterminate` in state `s`, `return false`, and a write to the headers first.
abbrev pub goes_on : State → HttpRequest → Option Consumed
goes_on s req = some (record { result = indeterminate; state = s; req = req })

abbrev pub rejects : State → HttpRequest → Option Consumed
rejects s req = some (record { result = invalid; state = s; req = req })

abbrev pub with_headers : State → HttpRequest → Option Headers → Option Consumed
with_headers s req none = none
with_headers s req (some hs) = goes_on s (record req { headers = hs })

-- The bytes of methods and header names.
abbrev pub no_word : ℕ → Bool
no_word c = not (is_char (int_of_char c)) || is_ctl (int_of_char c) || is_tspecial (int_of_char c)

abbrev pub push_method : HttpRequest → ℕ → HttpRequest
push_method req c = record req { method = req.method ++ c ∷ [] }

abbrev pub push_uri : HttpRequest → ℕ → HttpRequest
push_uri req c = record req { uri = req.uri ++ c ∷ [] }

-- The cases of `consume` for the end of the request line, the headers and the end of the request.
consume_http_version_minor : HttpRequest → ℕ → Option Consumed
consume_http_version_minor req input =
    if input == b'\r'
    then goes_on expecting_newline_1 req
    else if is_digit (int_of_char input)
    then goes_on http_version_minor req
    else rejects http_version_minor req

consume_expecting_newline_1 : HttpRequest → ℕ → Option Consumed
consume_expecting_newline_1 req input =
    if input == b'\n' then goes_on header_line_start req else rejects expecting_newline_1 req

consume_header_line_start : HttpRequest → ℕ → Option Consumed
consume_header_line_start req input =
    if input == b'\r'
    then goes_on expecting_newline_3 req
    else if not (is_empty req.headers) && (input == b' ' || input == b'\t')
    then goes_on header_lws req
    else if no_word input
    then rejects header_line_start req
    else with_headers header_name req (push_first input (req.headers ++ ([], []) ∷ []))

consume_header_lws : HttpRequest → ℕ → Option Consumed
consume_header_lws req input =
    if input == b'\r'
    then goes_on expecting_newline_2 req
    else if input == b' ' || input == b'\t'
    then goes_on header_lws req
    else if is_ctl (int_of_char input)
    then rejects header_lws req
    else with_headers header_value req (push_second input req.headers)

consume_header_name : HttpRequest → ℕ → Option Consumed
consume_header_name req input =
    if input == b':'
    then goes_on space_before_header_value req
    else if no_word input
    then rejects header_name req
    else with_headers header_name req (push_first input req.headers)

consume_space_before_header_value : HttpRequest → ℕ → Option Consumed
consume_space_before_header_value req input =
    if input == b' ' then goes_on header_value req else rejects space_before_header_value req

consume_header_value : HttpRequest → ℕ → Option Consumed
consume_header_value req input =
    if input == b'\r'
    then goes_on expecting_newline_2 req
    else if is_ctl (int_of_char input)
    then rejects header_value req
    else with_headers header_value req (push_second input req.headers)

consume_expecting_newline_2 : HttpRequest → ℕ → Option Consumed
consume_expecting_newline_2 req input =
    if input == b'\n' then goes_on header_line_start req else rejects expecting_newline_2 req

consume_expecting_newline_3 : HttpRequest → ℕ → Option Consumed
consume_expecting_newline_3 req input = some (record {
  result = if input == b'\n' then complete else invalid;
  state = expecting_newline_3;
  req = req;
})

-- The switch of `consume`; `none` stands for undefined behaviour.
unfoldable pub consume : State → HttpRequest → ℕ → Option Consumed
unfolding consume_http_version_minor consume_expecting_newline_1 consume_header_line_start
    consume_header_lws consume_header_name consume_space_before_header_value consume_header_value
    consume_expecting_newline_2 consume_expecting_newline_3
consume method_start req input =
    if no_word input then rejects method_start req else goes_on method (push_method req input)
consume method req input =
    if input == b' '
    then goes_on uri req
    else if no_word input
    then rejects method req
    else goes_on method (push_method req input)
consume uri_start req input =
    if is_ctl (int_of_char input) then rejects uri_start req else goes_on uri (push_uri req input)
consume uri req input =
    if input == b' '
    then goes_on http_version_h req
    else if is_ctl (int_of_char input)
    then rejects uri req
    else goes_on uri (push_uri req input)
consume http_version_h req input =
    if input == b'H' then goes_on http_version_t_1 req else rejects http_version_h req
consume http_version_t_1 req input =
    if input == b'T' then goes_on http_version_t_2 req else rejects http_version_t_1 req
consume http_version_t_2 req input =
    if input == b'T' then goes_on http_version_p req else rejects http_version_t_2 req
consume http_version_p req input =
    if input == b'P' then goes_on http_version_slash req else rejects http_version_p req
consume http_version_slash req input =
    if input == b'/' then goes_on http_version_major_start req else rejects http_version_slash req
consume http_version_major_start req input =
    if is_digit (int_of_char input)
    then goes_on http_version_major req
    else rejects http_version_major_start req
consume http_version_major req input =
    if input == b'.'
    then goes_on http_version_minor_start req
    else if is_digit (int_of_char input)
    then goes_on http_version_major req
    else rejects http_version_major req
consume http_version_minor_start req input =
    if is_digit (int_of_char input)
    then goes_on http_version_minor req
    else rejects http_version_minor_start req
consume http_version_minor req input = consume_http_version_minor req input
consume expecting_newline_1 req input = consume_expecting_newline_1 req input
consume header_line_start req input = consume_header_line_start req input
consume header_lws req input = consume_header_lws req input
consume header_name req input = consume_header_name req input
consume space_before_header_value req input = consume_space_before_header_value req input
consume header_value req input = consume_header_value req input
consume expecting_newline_2 req input = consume_expecting_newline_2 req input
consume expecting_newline_3 req input = consume_expecting_newline_3 req input

-- The answer of `parse`, the parser and the request after it, and the input that is left.
pub record Parsed : Type 0 where
  pub result : Verdict
  pub state : State
  pub req : HttpRequest
  pub rest : Bytes

-- Unfolded where the whole parser is run.
unfoldable pub running : Unit {0}
unfolding consume push_first push_second is_char is_ctl is_tspecial is_digit
running = tt

unfoldable pub parse : State → HttpRequest → Bytes → Option Parsed
parse s req [] = some (record { result = indeterminate; state = s; req = req; rest = [] })
parse s req (c ∷ input) = elim (consume s req c) [
  | none ↦ none
  | some r ↦
      let later = parse r.state r.req input in
      if is_determinate r.result
      then some (record { result = r.result; state = r.state; req = r.req; rest = input })
      else later
]

-- The constructor and `reset`.
abbrev pub initial_state : State
initial_state = method_start

pub reset : State → State
reset _ = method_start
