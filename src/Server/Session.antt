-- ===== src/Server/Session.antt =====
-- `session` of request.cc: one connection.
pub mod Clients
pub mod Maps
pub mod Dispatch
pub mod Answers
pub mod Sent
pub mod Caught
use cs_3_boost_echo_static_s.Base.{
  ℕ, zero, suc, ◌*◌, arith, ◌≡◌, refl, Bool, true, false, Option, none, some, List, [], ◌∷◌, ◌++◌,
  Bytes, codes, equal, length, if◌then◌else◌,
}
use cs_3_boost_echo_static_s.Base.Dict.{Dict, index, erase}
use cs_3_boost_echo_static_s.Base.Search.{find, erase_at}
use cs_3_boost_echo_static_s.Handlers.{handle_not_found}
use cs_3_boost_echo_static_s.Handlers.Interface.{RequestHandler, echo_handler, static_handler}
use cs_3_boost_echo_static_s.Http.{HttpRequest, HttpResponse, empty_request, empty_response}
use cs_3_boost_echo_static_s.RequestParser.Interface.{HttpRequestParser}
use cs_3_boost_echo_static_s.Response.{Buffer, to_buffers}
use cs_3_boost_echo_static_s.Response.Wire.{count_dangling, count_dangling-to_buffers}

-- The error code of `read_some`.
pub data ReadError : Type 0 where
  no_error eof other_error : ReadError

-- What the socket gives to the one `read_some` of a session.
pub record Received : Type 0 where
  pub bytes : Bytes
  pub error : ReadError

-- What the loop over the handlers leaves: a handler ran, none did, or `Init` threw.
pub data Dispatched : Type 0 where
  handled : HttpResponse → Dispatched
  unmatched : Dispatched
  thrown : Dispatched

-- The end of a session: buffers were given to `write`, the peer had closed the connection, or an
-- exception was caught and printed. In `dangling` some of the buffers given to `write` show storage
-- that is gone, so that to write them is undefined behaviour; they are kept as they were made.
pub data Outcome : Type 0 where
  wrote : List Buffer → Outcome
  dangling : List Buffer → Outcome
  closed : Outcome
  caught : Outcome
  undefined : Outcome

-- `write`, which reads the storage that the buffers show.
unfoldable pub write_buffers : List Buffer → Outcome
write_buffers buffers = elim (count_dangling buffers) [
  | zero ↦ wrote buffers
  | suc n ↦ dangling buffers
]

write_buffers-dangling :
    (buffers : List Buffer) (n : ℕ)
    → count_dangling buffers ≡ suc n
    → write_buffers buffers ≡ dangling buffers
unfolding write_buffers
write_buffers-dangling buffers n h = rw (h, write_buffers) refl

-- To write the buffers of any response is undefined.
pub write_buffers-to_buffers :
    (r : HttpResponse) → write_buffers (to_buffers r) ≡ dangling (to_buffers r)
write_buffers-to_buffers r =
    write_buffers-dangling (to_buffers r) (2 * length r.headers)
      (omega (arith, count_dangling-to_buffers r))

module _ (lexical_cast : ℕ → Bytes) where
  -- `Init` and then `HandleRequest` of one of the objects that the session holds.
  abbrev pub run_with : RequestHandler lexical_cast → Dict → HttpRequest → HttpResponse → Dispatched
  run_with handler config_map req rep = elim (handler.init config_map handler.fresh) [
    | none ↦ thrown
    | some (state, _) ↦ handled (handler.handle_request state req rep).0
  ]

module _ (lexical_cast : ℕ → Bytes) (open_file : Bytes → Option Bytes) where
  -- The body of the loop at a handler whose path is found in the URI, at `position`.
  unfoldable pub run_handler : Dict → ℕ → Bytes → HttpRequest → HttpResponse → Dispatched
  run_handler map position path req rep =
      let asked = record req { uri = erase_at position (length path) req.uri } in
      let (handler, map') = index (codes "handler") map in
      let config_map = erase (codes "handler") map' in
      if equal handler (codes "echo")
      then run_with lexical_cast (echo_handler lexical_cast) config_map asked rep
      else run_with lexical_cast (static_handler lexical_cast open_file) config_map asked rep

  -- The loop over the handlers, up to the first whose path is found.
  unfoldable pub dispatch : List Dict → HttpRequest → HttpResponse → Dispatched
  dispatch [] req rep = unmatched
  dispatch (map ∷ handlers) req rep =
      let (path, map') = index (codes "path") map in
      elim (find path req.uri) [
        | some position ↦ run_handler map' position path req rep
        | none ↦ dispatch handlers req rep
      ]

  -- The answer is made before the error code is looked at.
  unfoldable pub answer : ReadError → HttpResponse → Outcome
  answer no_error rep = write_buffers (to_buffers rep)
  answer eof rep = closed
  answer other_error rep = caught

  unfoldable pub session_of : List Dict → HttpRequest → ReadError → Outcome
  unfolding answer
  session_of handlers req error = elim (dispatch handlers req empty_response) [
    | handled rep ↦ answer error rep
    | unmatched ↦ answer error (handle_not_found lexical_cast req empty_response).0
    | thrown ↦ caught
  ]

  -- The answer of the parser is dropped.
  unfoldable pub session : HttpRequestParser → List Dict → Received → Outcome
  unfolding session_of
  session parser handlers received =
      elim (parser.parse parser.initial empty_request received.bytes) [
        | none ↦ undefined
        | some p ↦
            session_of handlers (record p.req { raw_request = received.bytes }) received.error
      ]
