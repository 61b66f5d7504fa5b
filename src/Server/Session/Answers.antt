-- ===== src/Server/Session/Answers.antt =====
-- What a session sends.
use cs_3_boost_echo_static_s.Base.{
  ℕ, ◌≡◌, ◌≢◌, refl, ◌⊎◌, inl, inr, Bool-cases, true, Option, none, Option-cases, List, [], ◌∷◌,
  Bytes, codes, All, equal,
}
use cs_3_boost_echo_static_s.Base.Dict.{Dict, index, erase}
use cs_3_boost_echo_static_s.Base.Search.{find}
use cs_3_boost_echo_static_s.Handlers.Interface.{echo_handler, static_handler}
use cs_3_boost_echo_static_s.Server.Session.Clients.{Answered, run_with-Answered}
use cs_3_boost_echo_static_s.Http.{HttpRequest, HttpResponse, empty_response}
use cs_3_boost_echo_static_s.Server.Session.Maps.{
  path_of, handler_of, directory_of, run_handler-echo, run_handler-static,
}
use cs_3_boost_echo_static_s.Server.Session.{
  no_error, Received, Dispatched, handled, unmatched, thrown, run_handler, dispatch,
}

-- The bytes of one read that did not fail.
abbrev pub received : Bytes → Received
received input = record { bytes = input; error = no_error }

-- A handler that is not `echo` is a static handler, and is given a directory.
abbrev pub IsConfigured : Dict → Type 0
IsConfigured map = (equal (handler_of map) (codes "echo") ≡ true) ⊎ (directory_of map ≢ none)

handled-ne-thrown : (r : HttpResponse) → handled r ≢ thrown
handled-ne-thrown r h = cc

pub Dispatched-cases :
    (d : Dispatched) → ((r : HttpResponse) × (d ≡ handled r)) ⊎ ((d ≡ unmatched) ⊎ (d ≡ thrown))
Dispatched-cases (handled r) = inl (r, refl)
Dispatched-cases unmatched = inr (inl refl)
Dispatched-cases thrown = inr (inr refl)

module _ (lexical_cast : ℕ → Bytes) (open_file : Bytes → Option Bytes) where
  run_handler-Answered :
      (position : ℕ) (map : Dict) (path : Bytes) (req : HttpRequest)
      → Answered lexical_cast
          (run_handler lexical_cast open_file map position path req empty_response)
  unfolding run_handler
  run_handler-Answered position map path req =
      let config_map = erase (codes "handler") (index (codes "handler") map).1 in
      elim (Bool-cases (equal (index (codes "handler") map).0 (codes "echo"))) [
        | inl e ↦
            rw (e, run_handler)
              (run_with-Answered lexical_cast config_map _ (echo_handler lexical_cast))
        | inr e ↦
            rw (e, run_handler)
              (run_with-Answered lexical_cast config_map _ (static_handler lexical_cast open_file))
      ]

  run_handler-ne-thrown :
      (position : ℕ) (map : Dict) (req : HttpRequest)
      → IsConfigured map
      → run_handler lexical_cast open_file
          (index (codes "path") map).1
          position
          (path_of map)
          req
          empty_response
        ≢ thrown
  run_handler-ne-thrown position map req (inl e) h =
      handled-ne-thrown _
        (rw (run_handler-echo lexical_cast open_file position map req empty_response e) at h)
  run_handler-ne-thrown position map req (inr d) h =
      elim (Bool-cases (equal (handler_of map) (codes "echo"))) [
        | inl e ↦
            handled-ne-thrown _
              (rw (run_handler-echo lexical_cast open_file position map req empty_response e) at h)
        | inr e ↦ elim (Option-cases (directory_of map)) [
          | inl n ↦ d n
          | inr (directory, s) ↦ handled-ne-thrown _ (
              rw
                (run_handler-static lexical_cast open_file position map req empty_response directory
                  e s)
                at h)
        ]
      ]

  pub dispatch-Answered :
      (handlers : List Dict) (req : HttpRequest)
      → Answered lexical_cast (dispatch lexical_cast open_file handlers req empty_response)
  unfolding dispatch
  dispatch-Answered [] req = tt
  dispatch-Answered (map ∷ handlers) req = elim (Option-cases (find (path_of map) req.uri)) [
    | inl e ↦ rw (e, dispatch) (dispatch-Answered handlers req)
    | inr (i, e) ↦ rw (e, dispatch) (run_handler-Answered i _ _ req)
  ]

  pub dispatch-ne-thrown :
      (handlers : List Dict) (req : HttpRequest)
      → All IsConfigured handlers
      → dispatch lexical_cast open_file handlers req empty_response ≢ thrown
  unfolding dispatch
  dispatch-ne-thrown [] req c h = cc
  dispatch-ne-thrown (map ∷ handlers) req (c, cs) h =
      elim (Option-cases (find (path_of map) req.uri)) [
        | inl e ↦ dispatch-ne-thrown handlers req cs (rw (e, dispatch) at h)
        | inr (i, e) ↦ run_handler-ne-thrown i map req c (rw (e, dispatch) at h)
      ]
