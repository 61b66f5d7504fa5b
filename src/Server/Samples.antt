-- ===== src/Server/Samples.antt =====
-- Handlers, requests and a machine for the concrete cases.
use cs_3_boost_echo_static_s.Base.{
  ℕ, ◌+◌, ◌≢◌, refl, Option, none, some, List, [], ◌∷◌, Bytes, codes, cons-ne-nil,
}
use cs_3_boost_echo_static_s.Base.Dict.{Dict}
use cs_3_boost_echo_static_s.RequestParser.Chars.{is_char, is_ctl, is_tspecial, is_digit}
use cs_3_boost_echo_static_s.RequestParser.Grammar.{RequestText, IsRequest}
use cs_3_boost_echo_static_s.Server.Config.Leaks.{Handler}
use cs_3_boost_echo_static_s.Server.Routes.{Route, echo, files}

abbrev pub one_digit : ℕ → Bytes
one_digit n = (b'0' + n) ∷ []

abbrev pub one_file : Bytes → Option Bytes
one_file name = some (codes "hello")

abbrev pub echo_pairs : List (Bytes × Bytes)
echo_pairs = (codes "path", codes "/echo") ∷ []

abbrev pub static_pairs : List (Bytes × Bytes)
static_pairs = (codes "path", codes "/static") ∷ (codes "directory", codes "/srv") ∷ []

abbrev pub echo_map : Dict
echo_map = (codes "handler", codes "echo") ∷ echo_pairs

abbrev pub static_map : Dict
static_map = (codes "handler", codes "static") ∷ static_pairs

abbrev pub echo_handler : Handler
echo_handler = record { name = codes "echo"; pairs = echo_pairs }

abbrev pub static_handler : Handler
static_handler = record { name = codes "static"; pairs = static_pairs }

abbrev pub echo_route : Route
echo_route = record { path = codes "/echo"; action = echo }

abbrev pub static_route : Route
static_route = record { path = codes "/static"; action = files (codes "/srv") }

abbrev pub text_for : Bytes → RequestText
text_for uri = record {
  method = codes "GET";
  uri = uri;
  major = codes "1";
  minor = codes "0";
  fields = [];
}

pub echo_IsRequest : IsRequest (text_for (codes "/echo"))
unfolding is_char is_ctl is_tspecial is_digit
echo_IsRequest = record {
  method_ne_nil = cons-ne-nil _ _;
  method_word = refl;
  uri_plain = refl;
  major_ne_nil = cons-ne-nil _ _;
  major_digits = refl;
  minor_ne_nil = cons-ne-nil _ _;
  minor_digits = refl;
  fields_are = tt;
}

pub static_IsRequest : IsRequest (text_for (codes "/static/a"))
unfolding is_char is_ctl is_tspecial is_digit
static_IsRequest = record {
  method_ne_nil = cons-ne-nil _ _;
  method_word = refl;
  uri_plain = refl;
  major_ne_nil = cons-ne-nil _ _;
  major_digits = refl;
  minor_ne_nil = cons-ne-nil _ _;
  minor_digits = refl;
  fields_are = tt;
}

pub some-ne-none : (b : Bytes) → some b ≢ none
some-ne-none b h = cc
