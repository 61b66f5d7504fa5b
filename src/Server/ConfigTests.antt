-- ===== src/Server/ConfigTests.antt =====
-- Concrete cases of the theorems on configurations and on the whole server.
use cs_3_boost_echo_static_s.Server.Samples.{
  one_digit, echo_handler, static_handler, echo_route, static_route,
}
use cs_3_boost_echo_static_s.Response.{Buffer}
use cs_3_boost_echo_static_s.Response.Wire.{gather}
use cs_3_boost_echo_static_s.Server.EndToEnd.{server_end_to_end, server_connections}
use mathlib.Core.List.{Perm, Forall₂}
use cs_3_boost_echo_static_s.RequestParser.Uri.{uri_of}
use cs_3_boost_echo_static_s.Server.Accept.{
  ServerState, Reaches, starts, then_step, accept, finish, accept_fails,
}
use cs_3_boost_echo_static_s.Server.Connections.{Serves}
use cs_3_boost_echo_static_s.Base.{
  suc, true, split_at, length, ◌≢◌, none, false, ◌≡◌, ◌↔◌, refl, Option, some, List, [], ◌∷◌, ◌++◌,
  ◌⊎◌, Bytes, codes, equal,
}
use cs_3_boost_echo_static_s.Base.Dict.{Dict, lookup, index, assign}
use cs_3_boost_echo_static_s.Base.Int.{pos, negsuc}
use cs_3_boost_echo_static_s.Base.Numbers.{stoi}
use cs_3_boost_echo_static_s.Config.{NginxConfig, nil, cons, statement, null, block}
use cs_3_boost_echo_static_s.Config.Print.{config_to_string}
use cs_3_boost_echo_static_s.Config.Printable.{IsPrintable, none_left, and_then, plain, nested}
use cs_3_boost_echo_static_s.Config.Tokens.{bare}
use cs_3_boost_echo_static_s.RequestParser.Interface.{request_parser}
use cs_3_boost_echo_static_s.Server.Config.{
  get_port, get_port_of, endpoint_port, config_to_handlers, get_child_block,
}
use cs_3_boost_echo_static_s.Server.Config.Candidates.{
  first_number, candidates, get_port_of-candidates,
}
use cs_3_boost_echo_static_s.Server.Config.Flat.{
  words, pairs_of, get_child_block-words, tagged, handlers_in, build, config_to_handlers-build,
}
use cs_3_boost_echo_static_s.Server.Config.Leaks.{
  assign_all, handlers_config, server_config, accumulate, config_to_handlers-leaks,
}
use cs_3_boost_echo_static_s.Server.Config.Ports.{endpoint_port-missing}
use cs_3_boost_echo_static_s.Config.Interface.{serving, unfinished, nginx_config_parser}
use cs_3_boost_echo_static_s.Config.Parser.{returned}
use cs_3_boost_echo_static_s.Config.Reader.{read_file}
use cs_3_boost_echo_static_s.Config.Scanner.{lexemes, next_token, split_quoted}
use cs_3_boost_echo_static_s.Server.Main.Described.{maps_of, described, start-described}
use cs_3_boost_echo_static_s.Server.Main.{start}
use cs_3_boost_echo_static_s.Server.Routes.{Answers, Represents}
use cs_3_boost_echo_static_s.Server.Session.{Received, eof, Outcome, session, dangling}
use cs_3_boost_echo_static_s.Server.Session.Answers.{received}

config_to_handlers-leaks_example :
    (m n : Dict) × (rest : List Dict) × (config_to_handlers
        (handlers_config (echo_handler ∷ static_handler ∷ echo_handler ∷ []))
      ≡ some (accumulate (echo_handler ∷ []) [] ++ m ∷ n ∷ rest))
    × (lookup (codes "directory") n ≡ lookup (codes "directory") m)
unfolding equal
config_to_handlers-leaks_example =
    config_to_handlers-leaks (echo_handler ∷ []) static_handler echo_handler [] (codes "directory")
      refl refl

endpoint_port-missing_example :
    (get_port (handlers_config (echo_handler ∷ [])) ≡ negsuc 0)
    × (endpoint_port (get_port (handlers_config (echo_handler ∷ []))) ≡ 65535)
unfolding equal
endpoint_port-missing_example =
    endpoint_port-missing (handlers_config (echo_handler ∷ [])) (refl, tt)

echo_config-IsPrintable : IsPrintable (server_config (codes "80") (echo_handler ∷ []))
echo_config-IsPrintable = and_then (plain (bare refl refl, (bare refl refl, tt))) (
    and_then
      (nested (bare refl refl, (bare refl refl, tt)) (plain (bare refl refl, (bare refl refl, tt)))
        none_left)
      none_left)

abbrev echo_files : Bytes → Option Bytes
echo_files name = some (config_to_string (server_config (codes "80") (echo_handler ∷ [])) 0)

both_config-IsPrintable :
    IsPrintable (server_config (codes "80") (static_handler ∷ echo_handler ∷ []))
both_config-IsPrintable = and_then (plain (bare refl refl, (bare refl refl, tt))) (
    and_then
      (nested (bare refl refl, (bare refl refl, tt)) (plain (bare refl refl, (bare refl refl, tt)))
        (and_then (plain (bare refl refl, (bare refl refl, tt))) none_left))
      (and_then
        (nested (bare refl refl, (bare refl refl, tt))
          (plain (bare refl refl, (bare refl refl, tt))) none_left)
        none_left))

abbrev both_files : Bytes → Option Bytes
both_files name =
    some (config_to_string (server_config (codes "80") (static_handler ∷ echo_handler ∷ [])) 0)

both-Represents :
    Represents (accumulate (static_handler ∷ echo_handler ∷ []) []) (static_route ∷ echo_route ∷ [])
unfolding index lookup equal assign
both-Represents = (refl, (refl, refl), (refl, refl, tt))

server_end_to_end_example :
    (handlers : List Dict) × (start nginx_config_parser both_files
        (codes "server" ∷ codes "conf" ∷ [])
      ≡ serving (endpoint_port (pos 80), handlers))
    × (buffers : List Buffer) × (session one_digit both_files request_parser handlers
          (received (codes "GET /echo HT"))
        ≡ dangling buffers)
    × ((wire : Bytes)
        → Answers one_digit both_files
            (static_route ∷ echo_route ∷ [])
            (uri_of (codes "GET /echo HT"))
            (codes "GET /echo HT")
            wire
          ↔ (wire ≡ gather buffers))
unfolding stoi
server_end_to_end_example =
    server_end_to_end one_digit both_files (codes "server") (codes "conf") (codes "80") (pos 80)
      (static_handler ∷ echo_handler ∷ []) (static_route ∷ echo_route ∷ []) (codes "GET /echo HT")
      both_config-IsPrintable refl refl both-Represents

-- A file that `ToString` does not write.
abbrev written_text : Bytes
written_text =
    codes
      "# a server\nport 80; handler static{path /static;directory /srv;}handler echo{path /echo;}"

abbrev written_files : Bytes → Option Bytes
written_files name = some written_text

abbrev written_handlers : List Dict
written_handlers = accumulate (static_handler ∷ echo_handler ∷ []) []

written_text-read :
    read_file (lexemes (suc (length written_text)) written_text)
    ≡ returned true (server_config (codes "80") (static_handler ∷ echo_handler ∷ []))
unfolding read_file lexemes next_token split_at split_quoted
written_text-read = refl

written_maps :
    maps_of (server_config (codes "80") (static_handler ∷ echo_handler ∷ []))
    ≡ some written_handlers
unfolding equal assign
written_maps = refl

abbrev run_both : Received → Outcome
run_both = session one_digit written_files request_parser written_handlers

abbrev leaving_client : Received
leaving_client = record { bytes = codes "GET"; error = eof }

abbrev one_lost : ServerState run_both
one_lost = record {
  accepted = leaving_client ∷ received (codes "GET /echo HT") ∷ [];
  running = [];
  ended = run_both (received (codes "GET /echo HT")) ∷ [];
  stopped = true;
}

-- Two connections are accepted, the thread of the first one ends, and then `accept` fails.
one_lost-Reaches : Reaches run_both one_lost
one_lost-Reaches =
    then_step
      (then_step
        (then_step (then_step starts (accept [] [] [] (received (codes "GET /echo HT"))))
          (accept _ _ [] leaving_client))
        (finish [] _ (leaving_client ∷ []) [] (received (codes "GET /echo HT"))))
      (accept_fails _ _ _)

server_connections_example :
    (start nginx_config_parser written_files (codes "server" ∷ codes "conf" ∷ [])
      ≡ serving (endpoint_port (pos 80), written_handlers))
    × (finished : List Received) × (lost : List Received) × Perm
        (finished ++ lost)
        (leaving_client ∷ received (codes "GET /echo HT") ∷ [])
    × ((true ≡ true) ⊎ (lost ≡ []))
    × Forall₂
        (Serves one_digit written_files (static_route ∷ echo_route ∷ []))
        finished
        (run_both (received (codes "GET /echo HT")) ∷ [])
unfolding stoi equal
server_connections_example =
    server_connections one_digit written_files (codes "server") (codes "conf") written_text
      (server_config (codes "80") (static_handler ∷ echo_handler ∷ [])) written_handlers
      (static_route ∷ echo_route ∷ []) one_lost refl written_text-read written_maps both-Represents
      one_lost-Reaches

start-described_example :
    (start nginx_config_parser written_files (codes "server" ∷ codes "conf" ∷ [])
      ≡ described written_files (codes "server" ∷ codes "conf" ∷ []))
    × (start nginx_config_parser written_files (codes "server" ∷ codes "conf" ∷ []) ≢ unfinished)
start-described_example = start-described written_files (codes "server" ∷ codes "conf" ∷ [])

-- The name of a handler in a statement of its own, and a key without a value.
abbrev split_config : NginxConfig
split_config = cons (statement (codes "handler" ∷ []) null) (
    cons (statement (codes "echo" ∷ []) (block (cons (statement (codes "path" ∷ []) null) nil)))
      nil)

config_to_handlers-build_example :
    config_to_handlers split_config ≡ build (handlers_in false (tagged split_config)) []
config_to_handlers-build_example = config_to_handlers-build split_config

split_runs :
    config_to_handlers split_config
    ≡ some (((codes "handler", codes "echo") ∷ (codes "path", []) ∷ []) ∷ [])
unfolding equal assign
split_runs = config_to_handlers-build split_config

get_child_block-words_example :
    get_child_block split_config [] ≡ assign_all (pairs_of (words split_config)) []
get_child_block-words_example = get_child_block-words split_config []

-- A token behind `port` that is no number, and then one that is.
abbrev port_config : NginxConfig
port_config =
    cons (statement (codes "port" ∷ codes "x" ∷ []) null)
      (cons (statement (codes "listen" ∷ codes "port" ∷ codes "80" ∷ []) null) nil)

get_port_of-candidates_example :
    get_port_of (codes "port") port_config
    ≡ elim (first_number (candidates (codes "port") port_config)) [ some n ↦ n | none ↦ negsuc 0 ]
get_port_of-candidates_example = get_port_of-candidates (codes "port") port_config

port_runs : get_port_of (codes "port") port_config ≡ pos 80
unfolding equal stoi
port_runs = get_port_of-candidates (codes "port") port_config
