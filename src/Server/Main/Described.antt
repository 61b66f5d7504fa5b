-- ===== src/Server/Main/Described.antt =====
-- What `main` of request.cc does with any arguments and any files, by the descriptions of the parts.
use cs_3_boost_echo_static_s.Base.{
  ℕ, suc, ◌≡◌, ◌≢◌, refl, ◌∙◌, ap, Option, none, some, List, [], ◌∷◌, Bytes, codes, length, true,
  false,
}
use cs_3_boost_echo_static_s.Base.Dict.{Dict}
use cs_3_boost_echo_static_s.Base.Int.{ℤ, negsuc}
use cs_3_boost_echo_static_s.Config.{NginxConfig}
use cs_3_boost_echo_static_s.Config.Described.{
  accepted_run, started-accepted_run, accepted_run-ne-unfinished,
}
use cs_3_boost_echo_static_s.Config.Interface.{
  Started, serving, undefined, unfinished, nginx_config_parser,
}
use cs_3_boost_echo_static_s.Config.Parser.{returned}
use cs_3_boost_echo_static_s.Config.Reader.{read_file}
use cs_3_boost_echo_static_s.Config.Scanner.{lexemes}
use cs_3_boost_echo_static_s.Server.Config.{get_port, endpoint_port}
use cs_3_boost_echo_static_s.Server.Config.Candidates.{
  candidates, first_number, get_port_of-candidates,
}
use cs_3_boost_echo_static_s.Server.Config.Flat.{
  tagged, handlers_in, build, config_to_handlers-build,
}
use cs_3_boost_echo_static_s.Server.Main.{serve, serve_config, start}

-- The port and the maps of a configuration, from the row of its tokens.
abbrev pub port_number : NginxConfig → ℤ
port_number c = elim (first_number (candidates (codes "port") c)) [ some n ↦ n | none ↦ negsuc 0 ]

abbrev pub maps_of : NginxConfig → Option (List Dict)
maps_of c = build (handlers_in false (tagged c)) []

abbrev serving_on : ℤ → Option (List Dict) → Started (ℕ × List Dict)
serving_on n none = undefined
serving_on n (some handlers) = serving (endpoint_port n, handlers)

abbrev pub described : (Bytes → Option Bytes) → List Bytes → Started (ℕ × List Dict)
described = accepted_run (λ c. serving_on (port_number c) (maps_of c))

serve_config-serving_on :
    (c : NginxConfig) → serve_config c ≡ serving_on (port_number c) (maps_of c)
unfolding serve_config serve get_port
serve_config-serving_on c = ap (serve c) (config_to_handlers-build c) ∙ by_maps (maps_of c)
  where
    by_maps : (o : Option (List Dict)) → serve c o ≡ serving_on (port_number c) o
    by_maps none = refl
    by_maps (some handlers) =
        ap (λ n. serving (endpoint_port n, handlers)) (get_port_of-candidates (codes "port") c)

serving_on-ne-unfinished : (n : ℤ) (o : Option (List Dict)) → serving_on n o ≢ unfinished
serving_on-ne-unfinished n none = cc
serving_on-ne-unfinished n (some handlers) = cc

-- `main` of request.cc, for all arguments and all files: without exactly one file name it shows how it is
-- used; a file that cannot be opened or is refused ends it; and a file that is accepted is served on the
-- port of the first number behind `port`, with one map for each handler in the row of the tokens, unless a
-- handler has no block, where it is undefined, as it is where the parser is. The fuel is never used up.
pub start-described :
    (files : Bytes → Option Bytes) (args : List Bytes)
    → (start nginx_config_parser files args ≡ described files args)
      × (start nginx_config_parser files args ≢ unfinished)
start-described files args =
    let e : start nginx_config_parser files args ≡ described files args =
      unfold start in started-accepted_run serve_config _ serve_config-serving_on files args in
    (
      e,
      rw e (
          accepted_run-ne-unfinished _ (λ c. serving_on-ne-unfinished (port_number c) (maps_of c))
            files args),
    )

-- An accepted file whose handlers all have blocks.
pub described-serving :
    (files : Bytes → Option Bytes) (program name input : Bytes) (c : NginxConfig)
    (handlers : List Dict)
    → files name ≡ some input
    → read_file (lexemes (suc (length input)) input) ≡ returned true c
    → maps_of c ≡ some handlers
    → described files (program ∷ name ∷ []) ≡ serving (endpoint_port (port_number c), handlers)
described-serving files program name input c handlers o p m = rw (o, p, m) refl
