-- ===== src/Server/Main/Serving.antt =====
-- From a configuration file to the running server.
use cs_3_boost_echo_static_s.Base.{
  ◌≡◌, ◌≢◌, refl, sym, ◌∙◌, ap, inl, inr, Bool-cases, false, Option, none, some, List, [], ◌∷◌,
  Bytes, codes, equal, equal_iff,
}
use cs_3_boost_echo_static_s.Base.Int.{ℤ}
use cs_3_boost_echo_static_s.Base.Numbers.{stoi}
use cs_3_boost_echo_static_s.Config.{nil, null}
use cs_3_boost_echo_static_s.Config.Interface.{ConfigParser, serving, started-printed}
use cs_3_boost_echo_static_s.Config.Print.{config_to_string}
use cs_3_boost_echo_static_s.Config.Printable.{IsPrintable}
use cs_3_boost_echo_static_s.Server.Config.{endpoint_port}
use cs_3_boost_echo_static_s.Server.Config.Leaks.{
  Handler, handlers_config, server_config, accumulate, config_to_handlers-server_config,
}
use cs_3_boost_echo_static_s.Server.Config.Ports.{get_port-first}
use cs_3_boost_echo_static_s.Server.Main.{serve, serve_config, start}

none-ne-some : (n : ℤ) → none ≢ some n
none-ne-some n h = cc

no_number : stoi (codes "handler") ≡ none
unfolding stoi
no_number = refl

number-ne-handler :
    (number : Bytes) (n : ℤ) → stoi number ≡ some n → equal number (codes "handler") ≡ false
number-ne-handler number n h = elim (Bool-cases (equal number (codes "handler"))) [
  | inl e ↦ absurd (
      none-ne-some n (sym no_number ∙ ap stoi (sym ((equal_iff number (codes "handler")).0 e)) ∙ h))
  | inr e ↦ e
]

-- If a configuration of a port and some handlers can be printed, the port is a number, and the file
-- holds what `ToString` writes for the configuration, then the server is started on that port with
-- one map for each handler.
pub start-server_config :
    (parser : ConfigParser) (open_file : Bytes → Option Bytes) (program name number : Bytes) (n : ℤ)
    (hs : List Handler)
    → IsPrintable (server_config number hs)
    → stoi number ≡ some n
    → open_file name ≡ some (config_to_string (server_config number hs) 0)
    → start parser open_file (program ∷ name ∷ []) ≡ serving (endpoint_port n, accumulate hs [])
unfolding start serve_config serve
start-server_config parser open_file program name number n hs p s o =
    started-printed parser open_file serve_config program name _ (handlers_config hs) p o
    ∙ rw (config_to_handlers-server_config number hs (number-ne-handler number n s), serve)
        (ap (λ k. serving (endpoint_port k, accumulate hs []))
          (get_port-first nil (handlers_config hs) number [] null n tt s))
