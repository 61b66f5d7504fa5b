-- ===== src/Server/Config/Leaks.antt =====
-- What `ConfigToHandlers` makes of the handler blocks of a file.
use mathlib.Core.Bool.{and-eq-true_iff}
use cs_3_boost_echo_static_s.Base.{
  ◌≡◌, refl, ◌∙◌, ap, inl, inr, Bool, true, false, not, none, Bool-cases, some, List, [], ◌∷◌, ◌++◌,
  Bytes, arith, codes, all, equal, append_assoc, append-nil,
}
use cs_3_boost_echo_static_s.Base.Dict.{Dict, lookup, assign, lookup-assign, equal_refl}
use cs_3_boost_echo_static_s.Config.{NginxConfig, nil, cons, statement, null, block}
use cs_3_boost_echo_static_s.Server.Config.{
  pair_token, pair_tokens, pair_statements, get_child_block, collect_token, collect_tokens,
  collect_statements, config_to_handlers,
}

-- A handler of a configuration file: its name, and the pairs of its block.
pub record Handler : Type 0 where
  pub name : Bytes
  pub pairs : List (Bytes × Bytes)

-- As it is written in a file: `handler name { key value; ... }`.
abbrev pub pairs_config : List (Bytes × Bytes) → NginxConfig
pairs_config [] = nil
pairs_config ((k, v) ∷ ps) = cons (statement (k ∷ v ∷ []) null) (pairs_config ps)

abbrev pub handlers_config : List Handler → NginxConfig
handlers_config [] = nil
handlers_config (h ∷ hs) =
    cons (statement (codes "handler" ∷ h.name ∷ []) (block (pairs_config h.pairs)))
      (handlers_config hs)

-- The entries of a block, added to a map one by one.
abbrev pub assign_all : List (Bytes × Bytes) → Dict → Dict
assign_all [] m = m
assign_all ((k, v) ∷ ps) m = assign_all ps (assign k v m)

-- The maps of the handlers: each begins as the map of the one before it.
abbrev pub accumulate : List Handler → Dict → List Dict
accumulate [] m = []
accumulate (h ∷ hs) m =
    let map = assign_all h.pairs (assign (codes "handler") h.name m) in map ∷ accumulate hs map

abbrev last_map : List Handler → Dict → Dict
last_map [] m = m
last_map (h ∷ hs) m = last_map hs (assign_all h.pairs (assign (codes "handler") h.name m))

pub assign-assign : (k v w : Bytes) (m : Dict) → assign k w (assign k v m) ≡ assign k w m
unfolding assign
assign-assign k v w [] = rw (equal_refl k) refl
assign-assign k v w ((j, x) ∷ m) = elim (Bool-cases (equal j k)) [
  | inl e ↦ rw e (rw e refl)
  | inr e ↦ rw e (rw e (ap (λ t. (j, x) ∷ t) (assign-assign k v w m)))
]

pair_statements-pairs :
    (ps : List (Bytes × Bytes)) (prev : Bytes) (m : Dict)
    → (pair_statements (pairs_config ps) (record { count = 2; prev_token = prev; map = m })).map
      ≡ assign_all ps m
unfolding pair_statements pair_tokens pair_token
pair_statements-pairs [] prev m = refl
pair_statements-pairs ((k, v) ∷ ps) prev m =
    ap
      (λ x. (pair_statements (pairs_config ps) (record { count = 2; prev_token = k; map = x })).map)
      (assign-assign k [] v m)
    ∙ pair_statements-pairs ps k (assign k v m)

get_child_block-pairs :
    (ps : List (Bytes × Bytes)) (m : Dict) → get_child_block (pairs_config ps) m ≡ assign_all ps m
unfolding get_child_block pair_statements pair_tokens pair_token
get_child_block-pairs [] m = refl
get_child_block-pairs ((k, v) ∷ ps) m =
    ap
      (λ x. (pair_statements (pairs_config ps) (record { count = 2; prev_token = k; map = x })).map)
      (assign-assign k [] v m)
    ∙ pair_statements-pairs ps k (assign k v m)

collect_statements-handlers :
    (hs : List Handler) (done : List Dict) (m : Dict)
    → collect_statements
        (handlers_config hs)
        (record { hand_maps = done; count = 0; in_handler = false; map_to_add = m })
      ≡ some (record {
        hand_maps = done ++ accumulate hs m;
        count = 0;
        in_handler = false;
        map_to_add = last_map hs m;
      })
unfolding collect_statements collect_tokens collect_token equal
collect_statements-handlers [] done m = rw append-nil refl
collect_statements-handlers (h ∷ hs) done m =
    let map = assign_all h.pairs (assign (codes "handler") h.name m) in
    let e = get_child_block-pairs h.pairs (assign (codes "handler") h.name m) in
    let later : collect_statements (handlers_config hs)
          (record { hand_maps = done ++ map ∷ []; count = 0; in_handler = false; map_to_add = map })
        ≡ some (record {
          hand_maps = done ++ map ∷ accumulate hs map;
          count = 0;
          in_handler = false;
          map_to_add = last_map hs map;
        }) =
      collect_statements-handlers hs (done ++ map ∷ []) map ∙ rw append_assoc in
    elim (Bool-cases (equal h.name (codes "handler"))) [
      | inl n ↦
          rw (n, collect_statements, collect_tokens, collect_token)
            (rw (e, collect_statements, collect_tokens, collect_token) later)
      | inr n ↦
          rw (n, collect_statements, collect_tokens, collect_token)
            (rw (e, collect_statements, collect_tokens, collect_token) later)
    ]

-- A configuration that holds only handlers, each with a block of pairs, gives one map for each, in
-- their order; each map begins as the map of the handler before it, and a pair replaces an older
-- one with its key.
pub config_to_handlers-accumulate :
    (hs : List Handler) → config_to_handlers (handlers_config hs) ≡ some (accumulate hs [])
unfolding config_to_handlers
config_to_handlers-accumulate hs =
    rw (collect_statements-handlers hs [] [], config_to_handlers) refl

-- `port number;` and then the handlers.
abbrev pub server_config : Bytes → List Handler → NginxConfig
server_config number hs = cons (statement (codes "port" ∷ number ∷ []) null) (handlers_config hs)

pub config_to_handlers-server_config :
    (number : Bytes) (hs : List Handler)
    → equal number (codes "handler") ≡ false
    → config_to_handlers (server_config number hs) ≡ some (accumulate hs [])
unfolding config_to_handlers collect_statements collect_tokens collect_token equal
config_to_handlers-server_config number hs h =
    rw (h, config_to_handlers, collect_statements, collect_tokens, collect_token)
      (rw (collect_statements-handlers hs [] []) refl)

not-true : (b : Bool) → not b ≡ true → b ≡ false
not-true b h = ground arith

lookup-assign_all :
    (ps : List (Bytes × Bytes)) (k : Bytes) (m : Dict)
    → all (λ p. not (equal p.0 k)) ps ≡ true
    → lookup k (assign_all ps m) ≡ lookup k m
lookup-assign_all [] k m h = refl
lookup-assign_all ((j, v) ∷ ps) k m h =
    let (hj, hs) = (and-eq-true_iff (not (equal j k)) _).0 h in
    let e : equal j k ≡ false = not-true (equal j k) hj in
    lookup-assign_all ps k (assign j v m) hs ∙ lookup-assign j k v m ∙ rw e refl

accumulate-append :
    (hs ks : List Handler) (m : Dict)
    → accumulate (hs ++ ks) m ≡ accumulate hs m ++ accumulate ks (last_map hs m)
accumulate-append [] ks m = refl
accumulate-append (h ∷ hs) ks m =
    let map = assign_all h.pairs (assign (codes "handler") h.name m) in
    ap (λ l. map ∷ l) (accumulate-append hs ks map)

-- In a configuration that holds only statements `handler name { key value; ... }`, whatever stands in front
-- of two successive handlers and behind them: for a key other than `handler` that the block of the second
-- does not give, its map has what the map of the first has for that key.
pub config_to_handlers-leaks :
    (before : List Handler) (first second : Handler) (after : List Handler) (k : Bytes)
    → equal (codes "handler") k ≡ false
    → all (λ p. not (equal p.0 k)) second.pairs ≡ true
    → (m n : Dict) × (rest : List Dict) × (config_to_handlers
          (handlers_config (before ++ first ∷ second ∷ after))
        ≡ some (accumulate before [] ++ m ∷ n ∷ rest))
      × (lookup k n ≡ lookup k m)
config_to_handlers-leaks before first second after k h hs = (
  _,
  _,
  _,
  config_to_handlers-accumulate (before ++ first ∷ second ∷ after)
      ∙ ap some (accumulate-append before (first ∷ second ∷ after) []),
  lookup-assign_all second.pairs k _ hs
      ∙ lookup-assign (codes "handler") k second.name _
      ∙ rw h refl,
)

-- A handler that has no block, as the first statement of a configuration, is undefined behaviour, whatever
-- its name is and whatever follows.
pub config_to_handlers-null :
    (name : Bytes) (more : List Bytes) (c : NginxConfig)
    → config_to_handlers (cons (statement (codes "handler" ∷ name ∷ more) null) c) ≡ none
unfolding config_to_handlers collect_statements collect_tokens collect_token equal
config_to_handlers-null name more c = elim (Bool-cases (equal name (codes "handler"))) [
  | inl e ↦ rw (e, config_to_handlers, collect_statements, collect_tokens, collect_token) refl
  | inr e ↦ rw (e, config_to_handlers, collect_statements, collect_tokens, collect_token) refl
]
