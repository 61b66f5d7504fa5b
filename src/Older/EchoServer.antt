-- ===== src/Older/EchoServer.antt =====
-- echo_tcp_server.cc: a server that writes back what it reads first.
use cs_3_boost_echo_static_s.Base.{ℕ, Option, List, Bytes, codes}
use cs_3_boost_echo_static_s.Base.Int.{ℤ}
use cs_3_boost_echo_static_s.Config.{NginxConfig}
use cs_3_boost_echo_static_s.Config.Interface.{ConfigParser, Started, serving, started}
use cs_3_boost_echo_static_s.Server.Accept.{ServerState, Step}
use cs_3_boost_echo_static_s.Server.Config.{get_port_of, endpoint_port}
use cs_3_boost_echo_static_s.Server.Session.{ReadError, no_error, eof, other_error, Received}

-- What a session writes; the connection may be closed, or an exception caught and printed.
pub data Echoed : Type 0 where
  echoed : Bytes → Echoed
  ended : Echoed
  failed : Echoed

echo_of : ReadError → Bytes → Echoed
echo_of no_error data_read = echoed data_read
echo_of eof data_read = ended
echo_of other_error data_read = failed

unfoldable pub echo_session : Received → Echoed
unfolding echo_of
echo_session r = echo_of r.error r.bytes

abbrev pub echo_port : NginxConfig → ℤ
echo_port = get_port_of (codes "listen")

-- `server`: the accept loop and its threads.
abbrev pub EchoStep : ServerState echo_session → ServerState echo_session → Type 0
EchoStep = Step echo_session

-- The port that `server` listens on, or how `main` ends before that.
unfoldable pub echo_start : ConfigParser → (Bytes → Option Bytes) → List Bytes → Started ℕ
echo_start parser open_file =
    started parser open_file (λ config. serving (endpoint_port (echo_port config)))
