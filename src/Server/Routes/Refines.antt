-- ===== src/Server/Routes/Refines.antt =====
-- A session keeps the promise of the routes.
use cs_3_boost_echo_static_s.Base.{
  ℕ, ◌≡◌, ◌↔◌, refl, subst, ◌∙◌, inl, inr, Bool-cases, Option, none, some, Option-cases, List, [],
  ◌∷◌, ◌++◌, Bytes, codes, All, equal, length,
}
use cs_3_boost_echo_static_s.Base.Dict.{Dict}
use cs_3_boost_echo_static_s.Base.Finding.{find-none, find-some, find-least, erase_at-append}
use cs_3_boost_echo_static_s.Base.Search.{find, erase_at}
use cs_3_boost_echo_static_s.Handlers.{handle_not_found}
use cs_3_boost_echo_static_s.Http.{HttpRequest, HttpResponse, empty_response}
use cs_3_boost_echo_static_s.RequestParser.Interface.{HttpRequestParser}
use cs_3_boost_echo_static_s.RequestParser.Uri.{uri_of}
use cs_3_boost_echo_static_s.Response.{Buffer, to_buffers}
use cs_3_boost_echo_static_s.Response.Wire.{gather}
use cs_3_boost_echo_static_s.Server.Routes.{
  Action, echo, files, Route, IsFirst, Acts, Answers, IsAction, Represents,
}
use cs_3_boost_echo_static_s.Server.Routes.Unique.{Answers-unique}
use cs_3_boost_echo_static_s.Server.Routes.Page.{
  wire_of, gather-not_found, gather-echo, handle_static-Acts,
}
use cs_3_boost_echo_static_s.Server.Session.{
  no_error, dangling, write_buffers-to_buffers, dispatch, answer, session_of, session,
}
use cs_3_boost_echo_static_s.Server.Session.Answers.{received, IsConfigured}
use cs_3_boost_echo_static_s.Server.Session.Dispatch.{dispatch_skip, dispatch_first}
use cs_3_boost_echo_static_s.Server.Session.Maps.{
  path_of, handler_of, directory_of, asked, run_handler-echo, run_handler-static,
}

find-IsFirst :
    (text uri : Bytes) (i : ℕ)
    → find text uri ≡ some i
    → (pre : Bytes) × (post : Bytes) × IsFirst text uri pre post
      × (erase_at i (length text) uri ≡ pre ++ post)
find-IsFirst text uri i h =
    let (pre, post, s, l) = find-some text uri i h in
    (
      pre,
      post,
      record {
        parts = s;
        least = λ pre' post' e. rw (← l) at (find-least text uri i h pre' post' e);
      },
      rw (s, ← l) (erase_at-append pre text post),
    )

action_for : (map : Dict) → IsConfigured map → (action : Action) × IsAction map action
action_for map h = elim (Bool-cases (equal (handler_of map) (codes "echo"))) [
  | inl e ↦ (echo, e)
  | inr e ↦ elim (Option-cases (directory_of map)) [
    | inl n ↦ absurd (elim h [ inl e' ↦ cc | inr d ↦ d n ])
    | inr (directory, d) ↦ (files directory, (e, d))
  ]
]

module _ (lexical_cast : ℕ → Bytes) (open_file : Bytes → Option Bytes) where
  -- The buffers of a response are given to `write`, and the wire form of the response answers the URI of
  -- the request.
  abbrev Serves : List Dict → List Route → HttpRequest → Type 0
  Serves handlers routes req =
      (r : HttpResponse) × (session_of lexical_cast open_file handlers req no_error
        ≡ dangling (to_buffers r))
      × Answers lexical_cast open_file routes req.uri req.raw_request (wire_of lexical_cast r)

  session_of_nil :
      (req : HttpRequest)
      → session_of lexical_cast open_file [] req no_error
        ≡ dangling (to_buffers (handle_not_found lexical_cast req empty_response).0)
  unfolding session_of answer dispatch
  session_of_nil req = write_buffers-to_buffers _

  session_of_skip :
      (map : Dict) (handlers : List Dict) (req : HttpRequest)
      → find (path_of map) req.uri ≡ none
      → session_of lexical_cast open_file (map ∷ handlers) req no_error
        ≡ session_of lexical_cast open_file handlers req no_error
  unfolding session_of
  session_of_skip map handlers req h =
      rw (dispatch_skip lexical_cast open_file map handlers req empty_response h, session_of) refl

  -- The first route is the one that answers.
  runs_first :
      (map : Dict) (handlers : List Dict) (action : Action) (req : HttpRequest) (i : ℕ)
      → IsAction map action
      → find (path_of map) req.uri ≡ some i
      → (r : HttpResponse) × (session_of lexical_cast open_file (map ∷ handlers) req no_error
          ≡ dangling (to_buffers r))
        × Acts lexical_cast open_file action
            (erase_at i (length (path_of map)) req.uri)
            req.raw_request
            (wire_of lexical_cast r)
  unfolding session_of answer
  runs_first map handlers echo req i h f = (
    _,
    rw
        (
          dispatch_first lexical_cast open_file [] handlers map i req empty_response tt f
              ∙ run_handler-echo lexical_cast open_file i map req empty_response h,
          session_of,
        )
        (write_buffers-to_buffers _),
    gather-echo lexical_cast (asked lexical_cast open_file i map req),
  )
  runs_first map handlers (files directory) req i (h, d) f = (
    _,
    rw
        (
          dispatch_first lexical_cast open_file [] handlers map i req empty_response tt f
              ∙ run_handler-static lexical_cast open_file i map req empty_response directory h d,
          session_of,
        )
        (write_buffers-to_buffers _),
    handle_static-Acts lexical_cast open_file directory req.raw_request
        (asked lexical_cast open_file i map req),
  )

  session_of-Serves :
      (handlers : List Dict) (routes : List Route) (req : HttpRequest)
      → Represents handlers routes
      → Serves handlers routes req
  session_of-Serves [] [] req h = (_, session_of_nil req, gather-not_found lexical_cast req)
  session_of-Serves (map ∷ handlers) (route ∷ routes) req (p, a, h) =
      elim (Option-cases (find (path_of map) req.uri)) [
        | inl n ↦
            let (r, e, s) = session_of-Serves handlers routes req h in
            (
              r,
              session_of_skip map handlers req n ∙ e,
              inl (rw p at (find-none (path_of map) req.uri n), s),
            )
        | inr (i, f) ↦
            let (r, e, s) = runs_first map handlers route.action req i a f in
            let (pre, post, first, rest) = find-IsFirst (path_of map) req.uri i f in
            (r, e, inr (pre, post, rw p at first, rw rest at s))
      ]
  session_of-Serves [] (_ ∷ _) req h = absurd h
  session_of-Serves (_ ∷ _) [] req h = absurd h

  -- If the maps of the handlers stand for routes, then in every session whose read does not fail, also
  -- where it is no request, `write` is given buffers of which some show storage that is gone, so that the
  -- write is undefined; when they were made, these buffers showed the bytes that the routes give for the
  -- URI that stands in the bytes read, and no other bytes would do.
  pub session-Answers :
      (parser : HttpRequestParser) (handlers : List Dict) (routes : List Route) (input : Bytes)
      → Represents handlers routes
      → (buffers : List Buffer) × (session lexical_cast open_file parser handlers (received input)
          ≡ dangling buffers)
        × ((wire : Bytes)
            → Answers lexical_cast open_file routes (uri_of input) input wire
              ↔ (wire ≡ gather buffers))
  unfolding session
  session-Answers parser handlers routes input h =
      let (p, read, _, at_uri) = parser.answers input in
      let (r, e, s) = session_of-Serves handlers routes (record p.req { raw_request = input }) h in
      let answers =
        subst (λ u. Answers lexical_cast open_file routes u input (wire_of lexical_cast r)) at_uri
          s in
      (
        to_buffers r,
        rw (read, session) e,
        λ wire. (
          λ a. Answers-unique lexical_cast open_file routes (uri_of input) input wire _ a answers,
          λ w. rw w answers,
        ),
      )

-- Maps of which each is of the echo handler or has a directory stand for routes.
pub routes_for :
    (handlers : List Dict)
    → All IsConfigured handlers
    → (routes : List Route) × Represents handlers routes
routes_for [] h = ([], tt)
routes_for (map ∷ handlers) (h, hs) =
    let (routes, r) = routes_for handlers hs in
    let (action, a) = action_for map h in
    (record { path = path_of map; action = action } ∷ routes, (refl, a, r))
