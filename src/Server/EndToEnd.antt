-- ===== src/Server/EndToEnd.antt =====
-- From the text of a configuration file and the bytes of a request to the buffers of the answer.
use mathlib.Core.List.{Perm, Forall₂}
use cs_3_boost_echo_static_s.Base.{
  ℕ, suc, ◌⊎◌, ◌≡◌, ◌↔◌, refl, ◌∙◌, true, Option, some, List, [], ◌∷◌, ◌++◌, Bytes, codes, equal,
  length,
}
use cs_3_boost_echo_static_s.Base.Dict.{Dict, lookup, assign, index}
use cs_3_boost_echo_static_s.Base.Int.{ℤ}
use cs_3_boost_echo_static_s.Base.Numbers.{stoi}
use cs_3_boost_echo_static_s.Base.Search.{find}
use cs_3_boost_echo_static_s.Config.Print.{config_to_string}
use cs_3_boost_echo_static_s.Config.Printable.{IsPrintable}
use cs_3_boost_echo_static_s.Handlers.{handle_echo}
use cs_3_boost_echo_static_s.Http.{HttpRequest, empty_response}
use cs_3_boost_echo_static_s.RequestParser.Interface.{request_parser}
use cs_3_boost_echo_static_s.RequestParser.Grammar.{RequestText, IsRequest, write_request}
use cs_3_boost_echo_static_s.Response.{Buffer, to_buffers}
use cs_3_boost_echo_static_s.Response.Wire.{gather, gather-to_buffers}
use cs_3_boost_echo_static_s.Server.Config.{endpoint_port}
use cs_3_boost_echo_static_s.Server.Config.Leaks.{Handler, server_config, accumulate}
use cs_3_boost_echo_static_s.Config.Interface.{serving, nginx_config_parser}
use cs_3_boost_echo_static_s.Server.Main.{start}
use cs_3_boost_echo_static_s.Config.{NginxConfig}
use cs_3_boost_echo_static_s.Config.Parser.{returned}
use cs_3_boost_echo_static_s.Config.Reader.{read_file}
use cs_3_boost_echo_static_s.Config.Scanner.{lexemes}
use cs_3_boost_echo_static_s.Server.Main.Described.{
  port_number, maps_of, start-described, described-serving,
}
use cs_3_boost_echo_static_s.Server.Main.Serving.{start-server_config}
use cs_3_boost_echo_static_s.Server.Routes.{Route, Represents, Answers}
use cs_3_boost_echo_static_s.Server.Routes.Refines.{session-Answers}
use cs_3_boost_echo_static_s.RequestParser.Uri.{uri_of}
use cs_3_boost_echo_static_s.Server.Accept.{ServerState, Reaches, Reaches-IsAccounted}
use cs_3_boost_echo_static_s.Server.Connections.{Serves, ended-Serves}
use cs_3_boost_echo_static_s.Server.Session.{Received, dangling, session}
use cs_3_boost_echo_static_s.Server.Session.Answers.{received}
use cs_3_boost_echo_static_s.Server.Session.Maps.{path_of, handler_of}
use cs_3_boost_echo_static_s.Server.Session.Sent.{session-echo}

-- `handler echo { path p; }`
abbrev pub echo_at : Bytes → Handler
echo_at path = record { name = codes "echo"; pairs = (codes "path", path) ∷ [] }

abbrev echo_map : Bytes → Dict
echo_map path = (codes "handler", codes "echo") ∷ (codes "path", path) ∷ []

accumulate-echo_at : (path : Bytes) → accumulate (echo_at path ∷ []) [] ≡ echo_map path ∷ []
unfolding assign equal
accumulate-echo_at path = refl

path_of-echo_map : (path : Bytes) → path_of (echo_map path) ≡ path
unfolding index lookup equal
path_of-echo_map path = refl

echo_map-echo : (path : Bytes) → equal (handler_of (echo_map path)) (codes "echo") ≡ true
unfolding index lookup equal
echo_map-echo path = refl

-- The answer of the echo handler, as it goes over the wire.
abbrev pub echo_answer : (ℕ → Bytes) → Bytes → Bytes
echo_answer lexical_cast input =
    codes "HTTP/1.0 200 OK\r\nContent-Length: "
    ++ (lexical_cast (length input) ++ (codes "\r\nContent-Type: text/plain\r\n\r\n" ++ input))

gather-handle_echo :
    (lexical_cast : ℕ → Bytes) (request : HttpRequest)
    → gather (to_buffers (handle_echo lexical_cast request empty_response).0)
      ≡ echo_answer lexical_cast request.raw_request
unfolding handle_echo
gather-handle_echo lexical_cast request = gather-to_buffers _

module _ (lexical_cast : ℕ → Bytes) (open_file : Bytes → Option Bytes) where
  -- A server is started with the file that `ToString` writes for a port that is a number and for
  -- one echo handler, if that can be printed, and reads, with no error, a well-formed request whose
  -- URI holds the path of the handler, and whatever follows it. It listens on that port, and gives
  -- `write` buffers that showed, when they were made, a response with status 200 and with all the bytes
  -- that were read for its body, but some of whose storage is gone, so that the write is undefined.
  pub echo_end_to_end :
      (program name number path : Bytes) (n : ℤ) (t : RequestText) (rest : Bytes) (position : ℕ)
      → IsPrintable (server_config number (echo_at path ∷ []))
      → stoi number ≡ some n
      → open_file name ≡ some (config_to_string (server_config number (echo_at path ∷ [])) 0)
      → IsRequest t
      → find path t.uri ≡ some position
      → (handlers : List Dict) × (buffers : List Buffer) × (start nginx_config_parser open_file
            (program ∷ name ∷ [])
          ≡ serving (endpoint_port n, handlers))
        × (session lexical_cast open_file request_parser handlers (received (write_request t rest))
            ≡ dangling buffers)
        × (gather buffers ≡ echo_answer lexical_cast (write_request t rest))
  echo_end_to_end program name number path n t rest position p s o request found = (
    echo_map path ∷ [],
    _,
    start-server_config nginx_config_parser open_file program name number n (echo_at path ∷ []) p s
          o
        ∙ rw (accumulate-echo_at path) refl,
    session-echo request_parser lexical_cast open_file t rest request [] [] (echo_map path) position
        tt (rw (path_of-echo_map path) found) (echo_map-echo path),
    gather-handle_echo lexical_cast _,
  )

  -- A server is started with the file that `ToString` writes for a port that is a number and for
  -- handlers, if that can be printed and the maps made of the handlers stand for routes. It listens on
  -- that port; and whatever it reads, with no error, it gives `write` buffers of which some show storage
  -- that is gone, so that the write is undefined; when they were made, these buffers showed the bytes that
  -- the routes give for the URI that stands in the bytes read, and no other bytes would do.
  pub server_end_to_end :
      (program name number : Bytes) (n : ℤ) (hs : List Handler) (routes : List Route)
      (input : Bytes)
      → IsPrintable (server_config number hs)
      → stoi number ≡ some n
      → open_file name ≡ some (config_to_string (server_config number hs) 0)
      → Represents (accumulate hs []) routes
      → (handlers : List Dict) × (start nginx_config_parser open_file (program ∷ name ∷ [])
          ≡ serving (endpoint_port n, handlers))
        × (buffers : List Buffer) × (session lexical_cast open_file request_parser handlers
              (received input)
            ≡ dangling buffers)
        × ((wire : Bytes)
            → Answers lexical_cast open_file routes (uri_of input) input wire
              ↔ (wire ≡ gather buffers))
  server_end_to_end program name number n hs routes input p s o h =
      let (buffers, e, w) =
        session-Answers lexical_cast open_file request_parser (accumulate hs []) routes input h in
      (
        accumulate hs [],
        start-server_config nginx_config_parser open_file program name number n hs p s o,
        buffers,
        e,
        w,
      )

  -- A server is started with any file that the description of the parser accepts, if each of its handlers
  -- has a block and the maps made of them stand for routes. It listens on the port that the file gives.
  -- In every state that is reached, in whatever order connections come, threads end, and `accept` or a new
  -- thread fails, the accepted connections are those that are finished, those whose threads run, and those
  -- that are lost, of which there are none unless the program has stopped; and the ends of the threads are
  -- one for each finished connection, each what the routes owe to it: buffers that showed the answer for
  -- the URI in the bytes read, but whose storage is gone when `write` reads it; nothing if the peer had
  -- closed the connection; or an exception that is caught if the read failed otherwise.
  pub server_connections :
      (program name input : Bytes) (c : NginxConfig) (handlers : List Dict) (routes : List Route)
      (s : ServerState (session lexical_cast open_file request_parser handlers))
      → open_file name ≡ some input
      → read_file (lexemes (suc (length input)) input) ≡ returned true c
      → maps_of c ≡ some handlers
      → Represents handlers routes
      → Reaches (session lexical_cast open_file request_parser handlers) s
      → (start nginx_config_parser open_file (program ∷ name ∷ [])
          ≡ serving (endpoint_port (port_number c), handlers))
        × (finished : List Received) × (lost : List Received) × Perm
            (finished ++ (s.running ++ lost))
            s.accepted
        × ((s.stopped ≡ true) ⊎ (lost ≡ []))
        × Forall₂ (Serves lexical_cast open_file routes) finished s.ended
  server_connections program name input c handlers routes s o p m h reached =
      let i =
        Reaches-IsAccounted (session lexical_cast open_file request_parser handlers) reached in
      (
        (start-described open_file (program ∷ name ∷ [])).0
            ∙ described-serving open_file program name input c handlers o p m,
        i.finished,
        i.lost,
        i.parts,
        i.none_lost,
        ended-Serves lexical_cast open_file request_parser handlers routes h i,
      )
