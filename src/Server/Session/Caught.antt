-- ===== src/Server/Session/Caught.antt =====
-- How a session ends without a reply.
use cs_3_boost_echo_static_s.Base.{ℕ, ◌≡◌, ◌≢◌, false, Option, none, List, ◌∷◌, Bytes, codes, equal}
use cs_3_boost_echo_static_s.Base.Dict.{Dict}
use cs_3_boost_echo_static_s.Base.Search.{find}
use cs_3_boost_echo_static_s.Http.{HttpResponse}
use cs_3_boost_echo_static_s.Response.{to_buffers}
use cs_3_boost_echo_static_s.Server.Session.Dispatch.{Misses}
use cs_3_boost_echo_static_s.Server.Session.Maps.{path_of, handler_of, directory_of}
use cs_3_boost_echo_static_s.Server.Session.{
  ReadError, no_error, eof, other_error, Outcome, dangling, closed, caught,
}

-- The first handler whose path stands in the URI is not the echo handler, and has no directory.
pub data Throws (uri : Bytes) : List Dict → Type 0 where
  here :
      {map : Dict} {handlers : List Dict}
      → find (path_of map) uri ≢ none
      → equal (handler_of map) (codes "echo") ≡ false
      → directory_of map ≡ none
      → Throws uri (map ∷ handlers)
  later :
      {map : Dict} {handlers : List Dict}
      → Misses uri map
      → Throws uri handlers
      → Throws uri (map ∷ handlers)

module _ (lexical_cast : ℕ → Bytes) (open_file : Bytes → Option Bytes) where
  -- The end of a session, when there is something to write, by the error code alone.
  data Ends : ReadError → Outcome → Type 0 where
    writes : (r : HttpResponse) → Ends no_error (dangling (to_buffers r))
    leaves : Ends eof closed
    fails : Ends other_error caught
