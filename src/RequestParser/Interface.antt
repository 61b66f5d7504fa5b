-- ===== src/RequestParser/Interface.antt =====
-- The class `request_parser` of request_handler.h as a session sees it.
use cs_3_boost_echo_static_s.Base.{◌≡◌, refl, Option, some, ◌++◌, Bytes}
use cs_3_boost_echo_static_s.Http.{HttpRequest, empty_request}
use cs_3_boost_echo_static_s.RequestParser.{State, Parsed, parse, initial_state, reset}
use cs_3_boost_echo_static_s.RequestParser.Chunks.{feed, parse-append}
use cs_3_boost_echo_static_s.RequestParser.Complete.{accepted, parse-write_request}
use cs_3_boost_echo_static_s.RequestParser.Grammar.{RequestText, IsRequest, write_request, meaning}
use cs_3_boost_echo_static_s.RequestParser.Uri.{uri_of, parse-Leaves}
use cs_3_boost_echo_static_s.RequestParser.Viable.{Means, parse-Means}

-- The public members, and what a caller may rely on: `reset` is as good as a new parser, every input is
-- answered and the answer is right, a well-formed request is taken as it is meant, and input may come
-- in pieces.
pub record HttpRequestParser : Type 0 where
  pub initial : State
  pub reset : State → State
  pub parse : State → HttpRequest → Bytes → Option Parsed
  pub starts_again : (s : State) → reset s ≡ initial
  pub answers :
      (input : Bytes)
      → (p : Parsed) × (parse initial empty_request input ≡ some p)
        × Means p.result input p.rest
        × (p.req.uri ≡ uri_of input)
  pub accepts :
      (t : RequestText) (rest : Bytes)
      → IsRequest t
      → parse initial empty_request (write_request t rest) ≡ accepted (meaning empty_request t) rest
  pub in_pieces :
      (s : State) (req : HttpRequest) (input more : Bytes)
      → parse s req (input ++ more) ≡ feed (parse s req input) more

-- The class with the members of request_parser.cc.
unfoldable pub request_parser : HttpRequestParser
unfolding reset
request_parser = record {
  initial = initial_state;
  reset = reset;
  parse = parse;
  starts_again = λ s. refl;
  answers = λ input. let (p, e, m) = parse-Means input in (p, e, m, rw e at (parse-Leaves input));
  accepts = λ t rest h. parse-write_request t empty_request rest h;
  in_pieces = parse-append;
}
