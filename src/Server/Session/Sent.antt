-- ===== src/Server/Session/Sent.antt =====
-- Whole sessions, from the bytes that are read to the buffers that are written.
use cs_3_boost_echo_static_s.Base.{
  ℕ, ◌≡◌, refl, ◌∙◌, inl, inr, true, false, Option, some, List, ◌∷◌, ◌++◌, Bytes, codes, All, equal,
}
use cs_3_boost_echo_static_s.Base.Dict.{Dict}
use cs_3_boost_echo_static_s.Base.Search.{find}
use cs_3_boost_echo_static_s.Handlers.{handle_echo, handle_not_found, handle_static}
use cs_3_boost_echo_static_s.Handlers.Replies.{IsReply, handle_not_found-IsReply}
use cs_3_boost_echo_static_s.Http.{HttpRequest, HttpResponse, empty_request, empty_response}
use cs_3_boost_echo_static_s.RequestParser.Grammar.{RequestText, IsRequest, write_request, meaning}
use cs_3_boost_echo_static_s.RequestParser.Interface.{HttpRequestParser}
use cs_3_boost_echo_static_s.Response.{to_buffers}
use cs_3_boost_echo_static_s.Server.Session.Answers.{
  received, IsConfigured, Dispatched-cases, dispatch-Answered, dispatch-ne-thrown,
}
use cs_3_boost_echo_static_s.Server.Session.Dispatch.{
  Misses, dispatch_first, dispatch-unmatched_iff,
}
use cs_3_boost_echo_static_s.Server.Session.Maps.{
  path_of, handler_of, directory_of, asked, run_handler-echo, run_handler-static,
}
use cs_3_boost_echo_static_s.Server.Session.{
  no_error, dispatch, dangling, write_buffers-to_buffers, answer, session_of, session,
}

module _ (parser : HttpRequestParser) (lexical_cast : ℕ → Bytes)
    (open_file : Bytes → Option Bytes) where
  session_of-dangling :
      (handlers : List Dict) (req : HttpRequest)
      → All IsConfigured handlers
      → (r : HttpResponse) × (session_of lexical_cast open_file handlers req no_error
          ≡ dangling (to_buffers r))
        × IsReply lexical_cast r
  unfolding session_of answer
  session_of-dangling handlers req c =
      let good = dispatch-Answered lexical_cast open_file handlers req in
      elim (Dispatched-cases (dispatch lexical_cast open_file handlers req empty_response)) [
        | inl (r, e) ↦ (r, rw (e, session_of) (write_buffers-to_buffers r), rw e at good)
        | inr (inl e) ↦ (
          _,
          rw (e, session_of) (write_buffers-to_buffers _),
          handle_not_found-IsReply lexical_cast req,
        )
        | inr (inr e) ↦ absurd (dispatch-ne-thrown lexical_cast open_file handlers req c e)
      ]

  -- If every handler of the configuration is the echo handler or has a directory, then every read that
  -- does not fail gets a reply, also where it is no request at all, whose buffers dangle when they are written.
  pub session-dangling :
      (handlers : List Dict) (input : Bytes)
      → All IsConfigured handlers
      → (r : HttpResponse) × (session lexical_cast open_file parser handlers (received input)
          ≡ dangling (to_buffers r))
        × IsReply lexical_cast r
  unfolding session
  session-dangling handlers input c =
      let (p, e, _, _) = parser.answers input in rw (e, session) (session_of-dangling handlers _ c)

  -- The request that the handlers are given, when the bytes read begin with a request.
  abbrev pub request_of : RequestText → Bytes → HttpRequest
  request_of t rest = record (meaning empty_request t) { raw_request = write_request t rest }

  pub session-write_request :
      (handlers : List Dict) (t : RequestText) (rest : Bytes)
      → IsRequest t
      → session lexical_cast open_file parser handlers (received (write_request t rest))
        ≡ session_of lexical_cast open_file handlers (request_of t rest) no_error
  unfolding session
  session-write_request handlers t rest h = rw (parser.accepts t rest h, session) refl

  module _ (t : RequestText) (rest : Bytes) (request : IsRequest t) where
    -- If a read does not fail and begins with a request whose URI holds none of the configured
    -- paths, the buffers given to `write` are those of the
    -- reply with status 404.
    pub session-not_found :
        (handlers : List Dict)
        → All (Misses t.uri) handlers
        → session lexical_cast open_file parser handlers (received (write_request t rest))
          ≡ dangling
              (to_buffers (handle_not_found lexical_cast (request_of t rest) empty_response).0)
    unfolding session_of answer
    session-not_found handlers h =
        session-write_request handlers t rest request
        ∙ rw
            (
              (dispatch-unmatched_iff lexical_cast open_file handlers (request_of t rest)
                    empty_response).1
                  h,
              session_of,
            )
            (write_buffers-to_buffers _)

    module _ (before after : List Dict) (map : Dict) (position : ℕ)
        (misses : All (Misses t.uri) before)
        (found : find (path_of map) t.uri ≡ some position) where
      -- If a read does not fail and begins with a request whose URI holds the path of an echo
      -- handler, and of no handler before it, the buffers given to `write` are those of the reply of
      -- the echo handler, which is given all the bytes that were read.
      pub session-echo :
          equal (handler_of map) (codes "echo") ≡ true
          → session lexical_cast open_file parser
              (before ++ map ∷ after)
              (received (write_request t rest))
            ≡ dangling (
                to_buffers
                  (handle_echo lexical_cast
                    (asked lexical_cast open_file position map (request_of t rest))
                    empty_response).0)
      unfolding session_of answer
      session-echo h =
          session-write_request (before ++ map ∷ after) t rest request
          ∙ rw
              (
                dispatch_first lexical_cast open_file before after map position (request_of t rest)
                      empty_response misses found
                    ∙ run_handler-echo lexical_cast open_file position map (request_of t rest)
                        empty_response h,
                session_of,
              )
              (write_buffers-to_buffers _)

      -- If a read does not fail and begins with a request whose URI holds the path of a handler
      -- with another name and a directory, and of no handler before it, the buffers given to `write`
      -- are those of the reply of the static handler for that directory, which is given the URI without that path.
      pub session-static :
          (directory : Bytes)
          → equal (handler_of map) (codes "echo") ≡ false
          → directory_of map ≡ some directory
          → session lexical_cast open_file parser
              (before ++ map ∷ after)
              (received (write_request t rest))
            ≡ dangling (
                to_buffers
                  (handle_static lexical_cast open_file directory
                    (asked lexical_cast open_file position map (request_of t rest))
                    empty_response).0)
      unfolding session_of answer
      session-static directory h d =
          session-write_request (before ++ map ∷ after) t rest request
          ∙ rw
              (
                dispatch_first lexical_cast open_file before after map position (request_of t rest)
                      empty_response misses found
                    ∙ run_handler-static lexical_cast open_file position map (request_of t rest)
                        empty_response directory h d,
                session_of,
              )
              (write_buffers-to_buffers _)
