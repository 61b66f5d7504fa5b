-- ===== src/Older/ParserHeader.antt =====
-- request_parser.h: the class `request_parser` once more, which no file includes. The members that it
-- only declares are parameters of the loop that it defines; no file defines
-- those members, as request_parser.cc includes request_handler.h instead.
pub mod Stops
use cs_3_boost_echo_static_s.Base.{ℕ, Bool, Option, none, some, [], ◌∷◌, Bytes, if◌then◌else◌}
use cs_3_boost_echo_static_s.Base.Int.{ℤ}
use cs_3_boost_echo_static_s.Http.{HttpRequest}
use cs_3_boost_echo_static_s.RequestParser.{Verdict, indeterminate, is_determinate}

pub data State : Type 0 where
  method_start method uri_start uri : State
  http_version_h http_version_t_1 http_version_t_2 http_version_p http_version_slash : State
  http_version_major_start http_version_major http_version_minor_start http_version_minor : State
  expecting_newline_1 header_line_start header_lws header_name : State
  space_before_header_value header_value expecting_newline_2 expecting_newline_3 : State

-- The members declared in the header. `consume` gives its answer, the state and the request after the
-- call, or `none` where it is undefined.
pub record ParserClass (S : Type 0) : Type 0 where
  pub initial : S
  pub reset : S → S
  pub consume : S → HttpRequest → ℕ → Option (Verdict × S × HttpRequest)
  pub is_char : ℤ → Bool
  pub is_ctl : ℤ → Bool
  pub is_tspecial : ℤ → Bool
  pub is_digit : ℤ → Bool

-- `parse`, which the header defines.
unfoldable pub parse_with :
    {S : Type 0}
    → ParserClass S
    → S
    → HttpRequest
    → Bytes
    → Option (Verdict × S × HttpRequest × Bytes)
parse_with members s req [] = some (indeterminate, s, req, [])
parse_with members s req (c ∷ input) = elim (members.consume s req c) [
  | none ↦ none
  | some (result, s', req') ↦
      let later = parse_with members s' req' input in
      if is_determinate result then some (result, s', req', input) else later
]
