-- ===== src/Server/Routes/CutOff.antt =====
-- A read that ends within the URI of a request.
use cs_3_boost_echo_static_s.Base.{
  ℕ, ◌≡◌, ◌↔◌, true, Option, List, ◌∷◌, ◌++◌, Bytes, all, arith, [], refl,
}
use cs_3_boost_echo_static_s.Base.Dict.{Dict}
use cs_3_boost_echo_static_s.RequestParser.Grammar.{RequestText, IsRequest}
use cs_3_boost_echo_static_s.RequestParser.Interface.{HttpRequestParser}
use cs_3_boost_echo_static_s.RequestParser.Runs.{is_uri_char}
use cs_3_boost_echo_static_s.RequestParser.Uri.Cut.{uri_of_cut}
use cs_3_boost_echo_static_s.Response.{Buffer}
use cs_3_boost_echo_static_s.Response.Wire.{gather}
use cs_3_boost_echo_static_s.Server.Routes.{Route, Answers, Represents}
use cs_3_boost_echo_static_s.Server.Routes.Refines.{session-Answers}
use cs_3_boost_echo_static_s.Server.Session.{dangling, session}
use cs_3_boost_echo_static_s.Server.Session.Answers.{received}

all_front : (pre post : Bytes) → all is_uri_char (pre ++ post) ≡ true → all is_uri_char pre ≡ true
all_front [] post h = refl
all_front (c ∷ pre) post h = ground (arith, all_front pre post)

-- If the one read of a session does not fail, and ends within the URI of a well-formed request, then what
-- was read of the URI is handled as if it were the whole: `write` is given buffers of which some show
-- storage that is gone, so that the write is undefined, and which showed, when they were made, what the
-- routes give for that part of the URI, and no other bytes would do.
pub session_cut :
    (lexical_cast : ℕ → Bytes) (open_file : Bytes → Option Bytes) (parser : HttpRequestParser)
    (handlers : List Dict) (routes : List Route) (t : RequestText) (pre post : Bytes)
    → Represents handlers routes
    → IsRequest t
    → t.uri ≡ pre ++ post
    → (buffers : List Buffer) × (session lexical_cast open_file parser handlers
          (received (t.method ++ b' ' ∷ pre))
        ≡ dangling buffers)
      × ((wire : Bytes)
          → Answers lexical_cast open_file routes pre (t.method ++ b' ' ∷ pre) wire
            ↔ (wire ≡ gather buffers))
session_cut lexical_cast open_file parser handlers routes t pre post h k e =
    let plain = all_front pre post (rw e at k.uri_plain) in
    rw (uri_of_cut t.method pre k.method_ne_nil k.method_word plain) at
      (session-Answers lexical_cast open_file parser handlers routes (t.method ++ b' ' ∷ pre) h)
