-- ===== src/Server/Connections.antt =====
-- What the routes owe to each connection, and that the accept loop and the sessions give it.
use mathlib.Core.List.{Forall₂}
use cs_3_boost_echo_static_s.Base.{ℕ, ◌≡◌, refl, inl, inr, Option, List, [], ◌∷◌, Bytes, All, map}
use cs_3_boost_echo_static_s.Base.Dict.{Dict}
use cs_3_boost_echo_static_s.Http.{HttpRequest, empty_response}
use cs_3_boost_echo_static_s.RequestParser.Interface.{HttpRequestParser}
use cs_3_boost_echo_static_s.RequestParser.Uri.{uri_of}
use cs_3_boost_echo_static_s.Response.{Buffer}
use cs_3_boost_echo_static_s.Response.Wire.{gather}
use cs_3_boost_echo_static_s.Server.Accept.{ServerState, IsAccounted}
use cs_3_boost_echo_static_s.Server.Routes.{
  Action, echo, files, Route, Answers, IsAction, Represents,
}
use cs_3_boost_echo_static_s.Server.Routes.Refines.{session-Answers}
use cs_3_boost_echo_static_s.Server.Session.{
  ReadError, no_error, eof, other_error, Received, Outcome, dangling, closed, caught, dispatch,
  answer, session_of, session,
}
use cs_3_boost_echo_static_s.Server.Session.Answers.{
  received, IsConfigured, Dispatched-cases, dispatch-ne-thrown,
}

IsAction-IsConfigured : (map : Dict) (action : Action) → IsAction map action → IsConfigured map
IsAction-IsConfigured map echo h = inl h
IsAction-IsConfigured map (files directory) (h, d) = inr (λ n. cc)

pub Represents-IsConfigured :
    (handlers : List Dict) (routes : List Route)
    → Represents handlers routes
    → All IsConfigured handlers
Represents-IsConfigured [] [] h = tt
Represents-IsConfigured (map ∷ handlers) (route ∷ routes) (p, a, h) =
    (IsAction-IsConfigured map route.action a, Represents-IsConfigured handlers routes h)
Represents-IsConfigured [] (route ∷ routes) h = absurd h
Represents-IsConfigured (map ∷ handlers) [] h = absurd h

module _ (lexical_cast : ℕ → Bytes) (open_file : Bytes → Option Bytes) where
  -- Buffers that showed the answer that the routes give, and whose storage is gone when `write` reads it,
  -- when the read did not fail; nothing, when the peer had closed the
  -- connection; and an exception that is caught, when the read failed otherwise.
  pub data Serves (routes : List Route) : Received → Outcome → Type 0 where
    answers :
        {input : Bytes} {buffers : List Buffer}
        → Answers lexical_cast open_file routes (uri_of input) input (gather buffers)
        → Serves routes (received input) (dangling buffers)
    leaves : {input : Bytes} → Serves routes (record { bytes = input; error = eof }) closed
    throws : {input : Bytes} → Serves routes (record { bytes = input; error = other_error }) caught

  session_of_eof :
      (handlers : List Dict) (req : HttpRequest)
      → All IsConfigured handlers
      → session_of lexical_cast open_file handlers req eof ≡ closed
  unfolding session_of answer
  session_of_eof handlers req c =
      elim (Dispatched-cases (dispatch lexical_cast open_file handlers req empty_response)) [
        | inl (r, e) ↦ rw (e, session_of) refl
        | inr (inl e) ↦ rw (e, session_of) refl
        | inr (inr e) ↦ absurd (dispatch-ne-thrown lexical_cast open_file handlers req c e)
      ]

  session_of_other_error :
      (handlers : List Dict) (req : HttpRequest)
      → session_of lexical_cast open_file handlers req other_error ≡ caught
  unfolding session_of answer
  session_of_other_error handlers req =
      elim (Dispatched-cases (dispatch lexical_cast open_file handlers req empty_response)) [
        | inl (r, e) ↦ rw (e, session_of) refl
        | inr (inl e) ↦ rw (e, session_of) refl
        | inr (inr e) ↦ rw (e, session_of) refl
      ]

  module _ (parser : HttpRequestParser) (handlers : List Dict) (routes : List Route)
      (h : Represents handlers routes) where
    pub session-Serves :
        (r : Received) → Serves routes r (session lexical_cast open_file parser handlers r)
    unfolding session
    session-Serves r = by_error r.error
      where
        by_error :
            (error : ReadError)
            → Serves routes
                (record { bytes = r.bytes; error = error })
                (session lexical_cast open_file parser handlers
                  (record { bytes = r.bytes; error = error }))
        by_error no_error =
            let (buffers, e, w) =
              session-Answers lexical_cast open_file parser handlers routes r.bytes h in
            rw e (answers ((w (gather buffers)).1 refl))
        by_error eof =
            let (p, e, _, _) = parser.answers r.bytes in
            rw (e, session)
              (rw (session_of_eof handlers _ (Represents-IsConfigured handlers routes h)) leaves)
        by_error other_error =
            let (p, e, _, _) = parser.answers r.bytes in
            rw (e, session) (rw (session_of_other_error handlers _) throws)

    sessions-Serves :
        (rs : List Received)
        → Forall₂ (Serves routes) rs (map (session lexical_cast open_file parser handlers) rs)
    sessions-Serves [] = Forall₂.nil
    sessions-Serves (r ∷ rs) = Forall₂.cons (session-Serves r) (sessions-Serves rs)

    -- If the maps of the handlers stand for routes: in every state that is reached, the ends of the
    -- threads are one for each connection that is finished, in that order, each what the routes owe to it.
    pub ended-Serves :
        {s : ServerState (session lexical_cast open_file parser handlers)}
        → (i : IsAccounted (session lexical_cast open_file parser handlers) s)
        → Forall₂ (Serves routes) i.finished s.ended
    ended-Serves {s} i = rw i.ends (sessions-Serves i.finished)
