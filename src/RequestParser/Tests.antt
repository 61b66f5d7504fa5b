-- ===== src/RequestParser/Tests.antt =====
-- Runs of the request parser, and concrete cases of its theorems.
use cs_3_boost_echo_static_s.RequestParser.{Parsed, method_start}
use cs_3_boost_echo_static_s.RequestParser.Chars.{is_char, is_ctl, is_tspecial, is_digit}
use cs_3_boost_echo_static_s.RequestParser.Complete.{accepted}
use cs_3_boost_echo_static_s.RequestParser.Grammar.{RequestText, IsRequest, write_request, meaning}
use cs_3_boost_echo_static_s.RequestParser.Safe.{IsReady, parse-ne-none}
use cs_3_boost_echo_static_s.RequestParser.Uri.{uri_of, uri_behind, parse-uri_of}
use cs_3_boost_echo_static_s.RequestParser.Viable.{Means, parse-Means}
use cs_3_boost_echo_static_s.RequestParser.Sound.{parse-accepted_iff}
use cs_3_boost_echo_static_s.Base.{split_at, ◌≡◌, ◌↔◌, refl, some, cons-ne-nil, [], ◌∷◌, codes}
use cs_3_boost_echo_static_s.Http.{empty_request}
use cs_3_boost_echo_static_s.RequestParser.{
  running, parse, initial_state, complete, expecting_newline_3,
}

get_parses :
    parse initial_state empty_request (codes "GET /a HTTP/1.0\r\nHost: x\r\n y\r\n\r\nrest")
    ≡ some (record {
      result = complete;
      state = expecting_newline_3;
      req = record empty_request {
        method = codes "GET";
        uri = codes "/a";
        headers = (codes "Host", codes "xy") ∷ [];
      };
      rest = codes "rest";
    })
unfolding parse running
get_parses = refl

abbrev host_text : RequestText
host_text = record {
  method = codes "GET";
  uri = codes "/a";
  major = codes "1";
  minor = codes "0";
  fields =
      record {
        name = codes "Host";
        value = codes "x";
        folds = record { blank = b' '; blanks = []; text = codes "y" } ∷ [];
      }
      ∷ [];
}

pub host_text-IsRequest : IsRequest host_text
unfolding is_char is_ctl is_tspecial is_digit
host_text-IsRequest = record {
  method_ne_nil = cons-ne-nil _ _;
  method_word = refl;
  uri_plain = refl;
  major_ne_nil = cons-ne-nil _ _;
  major_digits = refl;
  minor_ne_nil = cons-ne-nil _ _;
  minor_digits = refl;
  fields_are = (
    record {
      name_ne_nil = cons-ne-nil _ _;
      name_word = refl;
      value_plain = refl;
      folds_are = (
        record { blank_lws = refl; blanks_lws = refl; text_plain = refl; text_starts = refl },
        tt,
      );
    },
    tt,
  );
}

parse-accepted_iff_example :
    (parse method_start empty_request (write_request host_text (codes "rest"))
      ≡ accepted (meaning empty_request host_text) (codes "rest"))
    ↔ ((t : RequestText) × IsRequest t
        × (write_request host_text (codes "rest") ≡ write_request t (codes "rest"))
        × (meaning empty_request host_text ≡ meaning empty_request t))
parse-accepted_iff_example =
    parse-accepted_iff (write_request host_text (codes "rest")) (codes "rest") empty_request
      (meaning empty_request host_text) refl

parse-ne-none_example :
    (p : Parsed) × (parse method_start empty_request (codes "GET \r\n\n") ≡ some p)
    × IsReady p.state p.req.headers
parse-ne-none_example = parse-ne-none (codes "GET \r\n\n") method_start empty_request tt

parse-Means_example :
    (p : Parsed) × (parse initial_state empty_request (codes "GET /a HTTP/1.0\r\nHost") ≡ some p)
    × Means p.result (codes "GET /a HTTP/1.0\r\nHost") p.rest
parse-Means_example = parse-Means (codes "GET /a HTTP/1.0\r\nHost")

parse-uri_of_example :
    (p : Parsed) × (parse initial_state empty_request (codes "GET /a?b HT") ≡ some p)
    × (p.req.uri ≡ uri_of (codes "GET /a?b HT"))
parse-uri_of_example = parse-uri_of (codes "GET /a?b HT")

uri_of_runs :
    (uri_of (codes "GET /a?b HT") ≡ codes "/a?b")
    × (uri_of (codes "GET /a") ≡ codes "/a")
    × (uri_of (codes "GET?/a b") ≡ [])
unfolding uri_of uri_behind split_at is_char is_ctl is_tspecial
uri_of_runs = (refl, refl, refl)
