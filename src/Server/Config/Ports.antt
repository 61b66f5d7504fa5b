-- ===== src/Server/Config/Ports.antt =====
-- The port of a configuration, and the port that the server listens on.
use cs_3_boost_echo_static_s.Base.{
  ◌≡◌, refl, true, not, none, some, List, [], ◌∷◌, Bytes, arith, codes, all, equal,
}
use cs_3_boost_echo_static_s.Base.Int.{ℤ, negsuc}
use cs_3_boost_echo_static_s.Base.Numbers.{stoi}
use cs_3_boost_echo_static_s.Config.{NginxConfig, nil, cons, statement, ChildBlock}
use cs_3_boost_echo_static_s.Server.Config.{
  port_in_tokens, port_in_statements, get_port_of, get_port, endpoint_port,
}

-- No statement has a token `port`.
abbrev pub NoPort : NginxConfig → Type 0
NoPort nil = Unit
NoPort (cons (statement tokens b) c) =
    (all (λ t. not (equal t (codes "port"))) tokens ≡ true) × NoPort c

abbrev pub append_statements : NginxConfig → NginxConfig → NginxConfig
append_statements nil d = d
append_statements (cons s c) d = cons s (append_statements c d)

no_port_in_tokens :
    (key : Bytes) (tokens : List Bytes)
    → all (λ t. not (equal t key)) tokens ≡ true
    → port_in_tokens key true tokens ≡ none
unfolding port_in_tokens
no_port_in_tokens key [] h = refl
no_port_in_tokens key (t ∷ ts) h = ground (arith, no_port_in_tokens key ts)

skip_statements :
    (before c : NginxConfig)
    → NoPort before
    → port_in_statements (codes "port") (append_statements before c)
      ≡ port_in_statements (codes "port") c
unfolding port_in_statements
skip_statements nil c h = refl
skip_statements (cons (statement tokens b) before) c (h, hs) =
    rw (no_port_in_tokens (codes "port") tokens h, port_in_statements) (skip_statements before c hs)

port_in_statements-NoPort :
    (c : NginxConfig) → NoPort c → port_in_statements (codes "port") c ≡ none
unfolding port_in_statements
port_in_statements-NoPort nil h = refl
port_in_statements-NoPort (cons (statement tokens b) c) (h, hs) =
    rw (no_port_in_tokens (codes "port") tokens h, port_in_statements)
      (port_in_statements-NoPort c hs)

-- If no statement before it has a token `port`, and a statement begins with `port` and a text that
-- `stoi` reads as a number, that number is the port, whatever follows in the file.
pub get_port-first :
    (before after : NginxConfig) (number : Bytes) (more : List Bytes) (b : ChildBlock) (n : ℤ)
    → NoPort before
    → stoi number ≡ some n
    → get_port (append_statements before (cons (statement (codes "port" ∷ number ∷ more) b) after))
      ≡ n
unfolding get_port port_in_tokens port_in_statements get_port_of equal
get_port-first before after number more b n h s =
    rw
      (
        skip_statements before (cons (statement (codes "port" ∷ number ∷ more) b) after) h,
        get_port_of,
      )
      (rw (s, port_in_tokens) refl)

-- A configuration without a token `port` is not refused: its port is -1, and the server listens on
-- port 65535.
pub endpoint_port-missing :
    (config : NginxConfig)
    → NoPort config
    → (get_port config ≡ negsuc 0) × (endpoint_port (get_port config) ≡ 65535)
unfolding get_port get_port_of endpoint_port
endpoint_port-missing config h =
    let e = port_in_statements-NoPort config h in
    (rw (e, get_port_of) refl, rw (e, get_port_of, endpoint_port) refl)
