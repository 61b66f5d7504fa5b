-- ===== src/Older/Hello.antt =====
-- main.cc: a server that answers a line that begins with `GET`.
use Prim.Native.Nat.{suc}
use mathlib.Core.Option
use cs_3_boost_echo_static_s.Base.{
  ℕ, ◌≡◌, refl, ◌∙◌, Bool-cases, inl, inr, true, false, Bool, Option, none, some, [], ◌∷◌, Bytes,
  arith, codes, ◌==◌, if◌then◌else◌,
}
use cs_3_boost_echo_static_s.Base.Int.{ℤ}
use cs_3_boost_echo_static_s.Base.Search.{starts_with, find}
use cs_3_boost_echo_static_s.Config.{NginxConfig}
use cs_3_boost_echo_static_s.Config.Interface.{ConfigParser, Started, serving, started}
use cs_3_boost_echo_static_s.Server.Config.{get_port_of, endpoint_port}
use cs_3_boost_echo_static_s.Base.{List, map}

abbrev pub listen_port : NginxConfig → ℤ
listen_port = get_port_of (codes "listen")

-- `std::getline` of what was read.
unfoldable pub get_line : Bytes → Bytes
get_line [] = []
get_line (c ∷ s) = let rest = get_line s in if c == b'\n' then [] else c ∷ rest

abbrev pub hello_reply : Bytes
hello_reply =
    codes
      "HTTP/1.1 200 OK\r\n Content-Type: text/html\r\n\r\n <html><body>Hello, world!</body></html>\r\n"

-- What is written for a request, if anything is.
unfoldable pub hello : Bytes → Option Bytes
unfolding get_line
hello received = elim (find (codes "GET") (get_line received)) [
  | none ↦ none
  | some position ↦ if position == 0 then some hello_reply else none
]

-- The test of `main` on the place where the needle is found.
abbrev if_at_start : Option ℕ → Option Bytes
if_at_start none = none
if_at_start (some position) = if position == 0 then some hello_reply else none

behind : (o : Option ℕ) → if_at_start (Option.map suc o) ≡ none
behind none = refl
behind (some n) = ground arith

if_at_start-find :
    (n : ℕ) (needle text : Bytes)
    → if_at_start (find (n ∷ needle) text)
      ≡ (if starts_with (n ∷ needle) text then some hello_reply else none)
unfolding find starts_with
if_at_start-find n needle [] = refl
if_at_start-find n needle (c ∷ text) = elim (Bool-cases (starts_with (n ∷ needle) (c ∷ text))) [
  | inl e ↦ rw (e, find) refl
  | inr e ↦ rw (e, find) (behind (find (n ∷ needle) text))
]

-- No byte of `GET` ends a line.
starts_with-get_line :
    (received : Bytes)
    → starts_with (codes "GET") (get_line received) ≡ starts_with (codes "GET") received
unfolding starts_with get_line
starts_with-get_line [] = refl
starts_with-get_line (a ∷ []) = ground arith
starts_with-get_line (a ∷ b ∷ []) = ground arith
starts_with-get_line (a ∷ b ∷ c ∷ s) = ground arith

-- The reply is written exactly for input that begins with `GET`.
pub hello-starts_with :
    (received : Bytes)
    → hello received ≡ (if starts_with (codes "GET") received then some hello_reply else none)
unfolding hello
hello-starts_with received =
    if_at_start-find _ _ (get_line received) ∙ rw (starts_with-get_line received) refl

-- What a round of the accept loop meets: bytes that are read, or an exception of `accept` or `write`.
pub data HelloEvent : Type 0 where
  connected : Bytes → HelloEvent
  failed : HelloEvent

-- The loop over the connections, one at a time: what is written to each, and whether an exception has
-- ended the program.
unfoldable pub hello_loop : List HelloEvent → List (Option Bytes) × Bool
hello_loop [] = ([], false)
hello_loop (failed ∷ events) = ([], true)
hello_loop (connected bytes ∷ events) =
    let (replies, ended) = hello_loop events in (hello bytes ∷ replies, ended)

-- The connections in front of the first exception, and whether there is one.
abbrev pub connections : List HelloEvent → List Bytes
connections [] = []
connections (failed ∷ events) = []
connections (connected bytes ∷ events) = bytes ∷ connections events

abbrev pub fails : List HelloEvent → Bool
fails [] = false
fails (failed ∷ events) = true
fails (connected bytes ∷ events) = fails events

-- The reply to input that begins with `GET`.
abbrev pub reply_of : Bytes → Option Bytes
reply_of received = if starts_with (codes "GET") received then some hello_reply else none

-- Each connection in front of the first exception gets the reply if what is read from it begins with
-- `GET`, and nothing otherwise, in the order of the connections; an exception ends the program.
pub hello_loop-replies :
    (events : List HelloEvent)
    → hello_loop events ≡ (map reply_of (connections events), fails events)
unfolding hello_loop
hello_loop-replies [] = refl
hello_loop-replies (failed ∷ events) = refl
hello_loop-replies (connected bytes ∷ events) =
    rw (hello-starts_with bytes, hello_loop-replies events) refl

-- The port that `main` listens on, or how it ends before that.
unfoldable pub hello_start : ConfigParser → (Bytes → Option Bytes) → List Bytes → Started ℕ
hello_start parser open_file =
    started parser open_file (λ config. serving (endpoint_port (listen_port config)))
