-- ===== src/Server/Tests.antt =====
-- Concrete cases of the theorems on sessions and on the accept loop.
use cs_3_boost_echo_static_s.Server.Samples.{
  one_digit, one_file, echo_map, static_map, echo_route, static_route, some-ne-none,
}
use cs_3_boost_echo_static_s.Base.{
  ℕ, none, ◌≢◌, ◌≡◌, ◌↔◌, refl, inl, inr, some, List, [], ◌∷◌, Bytes, codes, All, equal,
}
use cs_3_boost_echo_static_s.Base.Dict.{Dict, lookup, index}
use cs_3_boost_echo_static_s.Base.Search.{find, starts_with}
use cs_3_boost_echo_static_s.RequestParser.Interface.{request_parser}
use cs_3_boost_echo_static_s.RequestParser.Uri.{uri_of}
use cs_3_boost_echo_static_s.Response.{Buffer}
use cs_3_boost_echo_static_s.Response.Wire.{gather}
use cs_3_boost_echo_static_s.Server.Routes.{Answers, Represents}
use cs_3_boost_echo_static_s.Server.Samples.{text_for, static_IsRequest}
use cs_3_boost_echo_static_s.Server.Routes.CutOff.{session_cut}
use cs_3_boost_echo_static_s.Server.Routes.Refines.{session-Answers}
use cs_3_boost_echo_static_s.Server.Session.{Received, eof, dangling, session}
use cs_3_boost_echo_static_s.Server.Session.Answers.{received, IsConfigured}
use cs_3_boost_echo_static_s.Server.Session.Caught.{Throws, here}
use cs_3_boost_echo_static_s.Server.Session.Dispatch.{Misses}
use cs_3_boost_echo_static_s.Server.Session.Maps.{path_of}

both-IsConfigured : All IsConfigured (static_map ∷ echo_map ∷ [])
unfolding lookup index equal
both-IsConfigured = (inr (some-ne-none _), (inl refl, tt))

static-Misses_echo : Misses (codes "/echo") static_map
unfolding find index lookup equal starts_with
static-Misses_echo = refl

echo-Misses_static : Misses (codes "/static/a") echo_map
unfolding find index lookup equal starts_with
echo-Misses_static = refl

echo_found : find (path_of echo_map) (codes "/echo") ≡ some 0
unfolding find index lookup equal starts_with
echo_found = refl

static_found : find (path_of static_map) (codes "/static/a") ≡ some 0
unfolding find index lookup equal starts_with
static_found = refl

maps-Represents : Represents (static_map ∷ echo_map ∷ []) (static_route ∷ echo_route ∷ [])
unfolding index lookup equal
maps-Represents = (refl, (refl, refl), (refl, refl, tt))

-- A request that is cut off behind its URI.
session-Answers_example :
    (buffers : List Buffer) × (session one_digit one_file request_parser
        (static_map ∷ echo_map ∷ [])
        (received (codes "GET /static/a HT"))
      ≡ dangling buffers)
    × ((wire : Bytes)
        → Answers one_digit one_file
            (static_route ∷ echo_route ∷ [])
            (uri_of (codes "GET /static/a HT"))
            (codes "GET /static/a HT")
            wire
          ↔ (wire ≡ gather buffers))
session-Answers_example =
    session-Answers one_digit one_file request_parser (static_map ∷ echo_map ∷ [])
      (static_route ∷ echo_route ∷ []) (codes "GET /static/a HT") maps-Represents

session_cut_example :
    (buffers : List Buffer) × (session one_digit one_file request_parser
        (static_map ∷ echo_map ∷ [])
        (received (codes "GET /static"))
      ≡ dangling buffers)
    × ((wire : Bytes)
        → Answers one_digit one_file
            (static_route ∷ echo_route ∷ [])
            (codes "/static")
            (codes "GET /static")
            wire
          ↔ (wire ≡ gather buffers))
session_cut_example =
    session_cut one_digit one_file request_parser (static_map ∷ echo_map ∷ [])
      (static_route ∷ echo_route ∷ []) (text_for (codes "/static/a")) (codes "/static") (codes "/a")
      maps-Represents static_IsRequest refl

-- A static handler without a directory.
abbrev bare_map : Dict
bare_map = (codes "handler", codes "static") ∷ (codes "path", codes "/static") ∷ []

abbrev leaving_client : Received
leaving_client = record { bytes = codes "GET /static/a HT"; error = eof }

position-ne-none : (i : ℕ) → some i ≢ none
position-ne-none i h = cc

bare_map-Throws : Throws (codes "/static/a") (bare_map ∷ [])
unfolding find index lookup equal starts_with
bare_map-Throws = here {map = bare_map} {handlers = []} (position-ne-none _) refl refl
