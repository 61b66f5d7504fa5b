-- ===== src/Older/Starting.antt =====
-- How the older servers start: `main` of main.cc and of echo_tcp_server.cc.
use cs_3_boost_echo_static_s.Base.{◌≡◌, ◌∙◌, ap, Option, some, none, List, [], ◌∷◌, Bytes, codes, ℕ}
use cs_3_boost_echo_static_s.Base.Int.{negsuc}
use cs_3_boost_echo_static_s.Config.{NginxConfig, cons, NginxConfigStatement}
use cs_3_boost_echo_static_s.Config.Described.{accepted_run, started-accepted_run}
use cs_3_boost_echo_static_s.Config.Interface.{
  nginx_config_parser, ConfigParser, serving, started-printed,
}
use cs_3_boost_echo_static_s.Config.Print.{config_to_string}
use cs_3_boost_echo_static_s.Config.Printable.{IsPrintable}
use cs_3_boost_echo_static_s.Older.EchoServer.{echo_start}
use cs_3_boost_echo_static_s.Older.Hello.{hello_start}
use cs_3_boost_echo_static_s.Server.Config.{get_port_of, endpoint_port}
use cs_3_boost_echo_static_s.Server.Config.Candidates.{
  candidates, first_number, get_port_of-candidates,
}

-- The port behind `listen`, as an endpoint takes it.
abbrev pub listens_on : NginxConfig → ℕ
listens_on c =
    endpoint_port
      (elim (first_number (candidates (codes "listen") c)) [ some n ↦ n | none ↦ negsuc 0 ])

module _ (parser : ConfigParser) (files : Bytes → Option Bytes) (program name : Bytes) where
  -- With the file that `ToString` writes for a configuration that can be printed and is not empty, both
  -- programs listen on the port that is the number of the first token behind `listen` that begins with
  -- one, in its statement, or on 65535 if there is no such token.
  pub older_servers_start :
      (s : NginxConfigStatement) (c : NginxConfig)
      → IsPrintable (cons s c)
      → files name ≡ some (config_to_string (cons s c) 0)
      → (hello_start parser files (program ∷ name ∷ []) ≡ serving (listens_on (cons s c)))
        × (echo_start parser files (program ∷ name ∷ []) ≡ serving (listens_on (cons s c)))
  unfolding hello_start echo_start
  older_servers_start s c p o =
      let port =
        ap (λ n. serving (endpoint_port n)) (get_port_of-candidates (codes "listen") (cons s c)) in
      let start =
        started-printed parser files
          (λ config. serving (endpoint_port (get_port_of (codes "listen") config))) program name s c
          p o
        ∙ port in
      (start, start)

-- Both programs, for all arguments and all files: without exactly one file name they show how they are
-- used, a file that cannot be opened or is refused ends them, and with a file that is accepted they listen
-- on the port that is the number of the first token behind `listen` that begins with one, in its
-- statement, or on 65535 if there is no such token. They are undefined where the parser is.
pub older_servers_described :
    (files : Bytes → Option Bytes) (args : List Bytes)
    → (hello_start nginx_config_parser files args
        ≡ accepted_run (λ c. serving (listens_on c)) files args)
      × (echo_start nginx_config_parser files args
          ≡ accepted_run (λ c. serving (listens_on c)) files args)
unfolding hello_start echo_start
older_servers_described files args =
    let listens = λ (c : NginxConfig).
      ap (λ n. serving (endpoint_port n)) (get_port_of-candidates (codes "listen") c) in
    let described = started-accepted_run _ _ listens files args in (described, described)
