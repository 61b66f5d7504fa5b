-- ===== src/Server/Config.antt =====
-- `getPort`, `getChildBlock` and `ConfigToHandlers` of request.cc.
pub mod Leaks
pub mod Ports
pub mod Flat
pub mod Candidates
use cs_3_boost_echo_static_s.Base.{
  ℕ, zero, suc, ◌+◌, ◌-◌, ◌%◌, Bool, true, false, not, ◌&&◌, Option, none, some, List, [], ◌∷◌,
  ◌++◌, Bytes, codes, equal, leb, ◌==◌, if◌then◌else◌,
}
use cs_3_boost_echo_static_s.Base.Dict.{Dict, assign}
use cs_3_boost_echo_static_s.Base.Int.{ℤ, pos, negsuc}
use cs_3_boost_echo_static_s.Base.Numbers.{stoi}
use cs_3_boost_echo_static_s.Config.{
  NginxConfig, nil, cons, NginxConfigStatement, statement, ChildBlock, null, block,
}

-- The inner loop of `getPort`: a number that is read behind the key is returned at once. The flag is
-- `kl`: the token before is not the key.
unfoldable pub port_in_tokens : Bytes → Bool → List Bytes → Option ℤ
port_in_tokens key kl [] = none
port_in_tokens key kl (token ∷ tokens) =
    let later = port_in_tokens key (not (equal token key)) tokens in
    if not kl then elim (stoi token) [ some n ↦ some n | none ↦ later ] else later

unfoldable pub port_in_statements : Bytes → NginxConfig → Option ℤ
port_in_statements key nil = none
port_in_statements key (cons (statement tokens b) c) = elim (port_in_tokens key true tokens) [
  | some n ↦ some n
  | none ↦ port_in_statements key c
]

-- The key is `port` in request.cc, and `listen` in the older programs; -1 is no port.
unfoldable pub get_port_of : Bytes → NginxConfig → ℤ
get_port_of key config = elim (port_in_statements key config) [ some n ↦ n | none ↦ negsuc 0 ]

unfoldable pub get_port : NginxConfig → ℤ
unfolding get_port_of port_in_statements port_in_tokens
get_port = get_port_of (codes "port")

-- `server(io, port_, ...)` takes a `short`, and `tcp::endpoint` an `unsigned short`: the number
-- modulo 2 ^ 16.
unfoldable pub endpoint_port : ℤ → ℕ
endpoint_port (pos n) = n % 65536
endpoint_port (negsuc n) = 65535 - n % 65536

-- The variables of `getChildBlock`: `count` is 0 at a key and 1 at a value.
pub record Pairing : Type 0 where
  pub count : ℕ
  pub prev_token : Bytes
  pub map : Dict

-- One round of the inner loop.
unfoldable pub pair_token : Bytes → Pairing → Pairing
pair_token token p =
    let count = p.count % 2 in
    if count == 0
    then record { count = count + 1; prev_token = token; map = assign token [] p.map }
    else record {
      count = count + 1;
      prev_token = p.prev_token;
      map = assign p.prev_token token p.map;
    }

pair_tokens : List Bytes → Pairing → Pairing
pair_tokens [] p = p
pair_tokens (token ∷ tokens) p = pair_tokens tokens (pair_token token p)

pair_statements : NginxConfig → Pairing → Pairing
pair_statements nil p = p
pair_statements (cons (statement tokens b) c) p = pair_statements c (pair_tokens tokens p)

unfoldable pub get_child_block : NginxConfig → Dict → Dict
unfolding pair_statements pair_tokens pair_token
get_child_block statements map =
    (pair_statements statements (record { count = 0; prev_token = []; map = map })).map

-- The variables of `ConfigToHandlers`. The map is never emptied: the declaration in the loop makes
-- another variable of the same name.
pub record Collecting : Type 0 where
  pub hand_maps : List Dict
  pub count : ℕ
  pub in_handler : Bool
  pub map_to_add : Dict

-- One round at a token of a statement with the child block `b`; a child block that is null is
-- followed, which is undefined.
unfoldable pub collect_token : Bytes → ChildBlock → Collecting → Option Collecting
unfolding get_child_block
collect_token token b s =
    let in_handler = if equal token (codes "handler") && s.count == 0 then true else s.in_handler in
    if in_handler
    then (if s.count == 1
        then elim b [
          | null ↦ none
          | block c ↦
              let map = get_child_block c (assign (codes "handler") token s.map_to_add) in
              some (record {
                hand_maps = s.hand_maps ++ map ∷ [];
                count = 0;
                in_handler = false;
                map_to_add = map;
              })
        ]
        else some (record s { in_handler = true; count = s.count + 1 }))
    else some (record s { in_handler = in_handler })

collect_tokens : List Bytes → ChildBlock → Collecting → Option Collecting
collect_tokens [] b s = some s
collect_tokens (token ∷ tokens) b s = elim (collect_token token b s) [
  | none ↦ none
  | some s' ↦ collect_tokens tokens b s'
]

collect_statements : NginxConfig → Collecting → Option Collecting
collect_statements nil s = some s
collect_statements (cons (statement tokens b) c) s = elim (collect_tokens tokens b s) [
  | none ↦ none
  | some s' ↦ collect_statements c s'
]

abbrev initial_collecting : Collecting
initial_collecting = record { hand_maps = []; count = 0; in_handler = false; map_to_add = [] }

-- `none` is undefined behaviour.
unfoldable pub config_to_handlers : NginxConfig → Option (List Dict)
unfolding collect_statements collect_tokens collect_token
config_to_handlers config = elim (collect_statements config initial_collecting) [
  | none ↦ none
  | some s ↦ some s.hand_maps
]
