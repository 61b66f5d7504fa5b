-- ===== src/Older/Tests.antt =====
-- Concrete cases of the theorems on the older programs.
use cs_3_boost_echo_static_s.Base.{
  split_at, ◌≡◌, ◌↔◌, refl, true, Option, some, none, [], ◌∷◌, Bytes, codes,
}
use cs_3_boost_echo_static_s.Base.Search.{c_str, starts_with}
use cs_3_boost_echo_static_s.Config.{NginxConfig, cons, nil, statement, block, null}
use cs_3_boost_echo_static_s.Config.Described.{accepted_run}
use cs_3_boost_echo_static_s.Config.Reader.{read_file}
use cs_3_boost_echo_static_s.Config.Scanner.{lexemes, next_token}
use cs_3_boost_echo_static_s.Config.Interface.{nginx_config_parser, serving}
use cs_3_boost_echo_static_s.Config.Parser.{parse, returned}
use cs_3_boost_echo_static_s.Config.Print.{config_to_string, print_tokens, indent}
use cs_3_boost_echo_static_s.Base.Int.{pos}
use cs_3_boost_echo_static_s.Base.Numbers.{stoi}
use cs_3_boost_echo_static_s.Config.Printable.{IsPrintable, none_left, and_then, plain}
use cs_3_boost_echo_static_s.Config.Tokens.{bare}
use cs_3_boost_echo_static_s.Older.EchoServer.{echo_start}
use cs_3_boost_echo_static_s.Older.Starting.{listens_on, older_servers_described}
use cs_3_boost_echo_static_s.Older.Hello.{
  hello_reply, hello_start, connected, failed, hello_loop, hello_loop-replies,
}
use cs_3_boost_echo_static_s.Older.Printer.{print_file, printed_run, print_file-printed_run}
use cs_3_boost_echo_static_s.Older.Reply.{
  not_found, reply_to_buffers, Reply, reply_to_buffers-shows,
}
use cs_3_boost_echo_static_s.Http.{empty_request}
use cs_3_boost_echo_static_s.Older.ParserHeader.{ParserClass, parse_with}
use cs_3_boost_echo_static_s.Older.ParserHeader.Stops.{Stops, parse_with-Stops_iff}
use cs_3_boost_echo_static_s.RequestParser
use cs_3_boost_echo_static_s.RequestParser.{method_start, method, invalid, consume}
use cs_3_boost_echo_static_s.RequestParser.Chars.{is_char, is_ctl, is_tspecial, is_digit}
use cs_3_boost_echo_static_s.Response.Wire.{gather, count_dangling}

abbrev any_file : Bytes → Bytes → Option Bytes
any_file content name = some content

bar_parses :
    nginx_config_parser.parse_stream (codes "foo{bar;}") nil
    ≡ returned true (
        cons
          (statement (codes "foo" ∷ []) (block (cons (statement (codes "bar" ∷ []) null) nil)))
          nil)
unfolding nginx_config_parser parse
bar_parses = refl

abbrev no_page : Reply
no_page = record {
  status = not_found;
  headers = record { name = codes "a"; value = codes "b" } ∷ [];
  content = codes "c";
}

reply_to_buffers-shows_example :
    (gather (reply_to_buffers no_page) ≡ codes "HTTP/1.0 404 Not Found\r\na: b\r\n\r\nc")
    × (stoi (codes "404") ≡ some (pos 404))
    × (count_dangling (reply_to_buffers no_page) ≡ 0)
reply_to_buffers-shows_example = reply_to_buffers-shows no_page

abbrev listen_config : NginxConfig
listen_config = cons (statement (codes "listen" ∷ codes "80" ∷ []) null) nil

listen_config-IsPrintable : IsPrintable listen_config
listen_config-IsPrintable = and_then (plain (bare refl refl, (bare refl refl, tt))) none_left

older_servers_described_example :
    (hello_start nginx_config_parser (any_file (codes "listen 80;}")) (codes "p" ∷ codes "c" ∷ [])
      ≡ accepted_run
          (λ c. serving (listens_on c))
          (any_file (codes "listen 80;}"))
          (codes "p" ∷ codes "c" ∷ []))
    × (echo_start nginx_config_parser (any_file (codes "listen 80;}")) (codes "p" ∷ codes "c" ∷ [])
        ≡ accepted_run
            (λ c. serving (listens_on c))
            (any_file (codes "listen 80;}"))
            (codes "p" ∷ codes "c" ∷ []))
older_servers_described_example =
    older_servers_described (any_file (codes "listen 80;}")) (codes "p" ∷ codes "c" ∷ [])

print_file-printed_run_example :
    print_file nginx_config_parser (any_file (codes "a b; c}")) (codes "p" ∷ codes "c" ∷ [])
    ≡ printed_run (any_file (codes "a b; c}")) (codes "p" ∷ codes "c" ∷ [])
print_file-printed_run_example =
    print_file-printed_run (any_file (codes "a b; c}")) (codes "p" ∷ codes "c" ∷ [])

-- What stands in front of the error is printed, with the statement in which it is.
printed_run_shows :
    printed_run (any_file (codes "a b; c}")) (codes "p" ∷ codes "c" ∷ [])
    ≡ serving (codes "a b;\nc;\n")
unfolding read_file lexemes next_token split_at config_to_string print_tokens indent c_str
printed_run_shows = refl

hello_loop-replies_example :
    hello_loop (connected (codes "GET /\n") ∷ connected (codes "PUT\n") ∷ failed ∷ [])
    ≡ (some hello_reply ∷ none ∷ [], true)
unfolding starts_with
hello_loop-replies_example =
    hello_loop-replies (connected (codes "GET /\n") ∷ connected (codes "PUT\n") ∷ failed ∷ [])

-- A class with the `consume` of request_parser.cc, on the states that it has there.
abbrev with_consume : ParserClass RequestParser.State
with_consume = record {
  initial = method_start;
  reset = λ s. method_start;
  consume =
      λ s req c. elim (consume s req c) [ none ↦ none | some r ↦ some (r.result, r.state, r.req) ];
  is_char = is_char;
  is_ctl = is_ctl;
  is_tspecial = is_tspecial;
  is_digit = is_digit;
}

parse_with-Stops_iff_example :
    Stops with_consume method_start empty_request
      (codes "G(T")
      (some (invalid, method, record empty_request { method = codes "G" }, codes "T"))
    ↔ (parse_with with_consume method_start empty_request (codes "G(T")
        ≡ some (invalid, method, record empty_request { method = codes "G" }, codes "T"))
parse_with-Stops_iff_example =
    parse_with-Stops_iff with_consume method_start empty_request (codes "G(T")
      (some (invalid, method, record empty_request { method = codes "G" }, codes "T"))

-- The parenthesis is refused, and the byte behind it is left.
parenthesis-Stops :
    Stops with_consume method_start empty_request
      (codes "G(T")
      (some (invalid, method, record empty_request { method = codes "G" }, codes "T"))
unfolding parse_with consume is_char is_ctl is_tspecial
parenthesis-Stops =
    (parse_with-Stops_iff with_consume method_start empty_request (codes "G(T") _).1 refl
