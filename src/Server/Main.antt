-- ===== src/Server/Main.antt =====
-- `main` of request.cc, up to the start of the server.
pub mod Serving
pub mod Described
use cs_3_boost_echo_static_s.Base.{ℕ, Option, none, some, List, Bytes}
use cs_3_boost_echo_static_s.Base.Dict.{Dict}
use cs_3_boost_echo_static_s.Config.{NginxConfig}
use cs_3_boost_echo_static_s.Config.Interface.{ConfigParser, Started, serving, undefined, started}
use cs_3_boost_echo_static_s.Server.Config.{get_port, endpoint_port, config_to_handlers}

serve : NginxConfig → Option (List Dict) → Started (ℕ × List Dict)
serve config none = undefined
serve config (some handlers) = serving (endpoint_port (get_port config), handlers)

-- What `main` does with a configuration.
unfoldable pub serve_config : NginxConfig → Started (ℕ × List Dict)
unfolding serve
serve_config config = serve config (config_to_handlers config)

-- The port and the handlers that `server` is called with, or how `main` ends before that.
unfoldable pub start : ConfigParser → (Bytes → Option Bytes) → List Bytes → Started (ℕ × List Dict)
start parser open_file = started parser open_file serve_config
