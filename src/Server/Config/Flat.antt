-- ===== src/Server/Config/Flat.antt =====
-- `getChildBlock` and `ConfigToHandlers` read the tokens of all statements as one row.
use mathlib.Core.Option
use cs_3_boost_echo_static_s.Base.{
  ◌≡◌, refl, ◌∙◌, ap, inl, inr, Bool, true, false, Bool-cases, Option, none, some, Option-cases,
  List, [], ◌∷◌, ◌++◌, map, append_assoc, append-nil, Bytes, codes, equal,
}
use cs_3_boost_echo_static_s.Base.Dict.{Dict, assign}
use cs_3_boost_echo_static_s.Config.{NginxConfig, nil, cons, statement, ChildBlock, null, block}
use cs_3_boost_echo_static_s.Server.Config.Leaks.{assign_all, assign-assign}
use cs_3_boost_echo_static_s.Server.Config.{
  Pairing, pair_token, pair_tokens, pair_statements, get_child_block, Collecting, collect_token,
  collect_tokens, collect_statements, config_to_handlers,
}

-- The tokens of a configuration, without its statements and blocks.
abbrev pub words : NginxConfig → List Bytes
words nil = []
words (cons (statement tokens b) c) = tokens ++ words c

-- Every second token is the value of the one before it; at the end a value may be missing.
abbrev pub pairs_of : List Bytes → List (Bytes × Bytes)
pairs_of [] = []
pairs_of (k ∷ []) = (k, []) ∷ []
pairs_of (k ∷ v ∷ tokens) = (k, v) ∷ pairs_of tokens

pair_tokens-append :
    (ts us : List Bytes) (p : Pairing)
    → pair_tokens (ts ++ us) p ≡ pair_tokens us (pair_tokens ts p)
unfolding pair_tokens
pair_tokens-append [] us p = refl
pair_tokens-append (t ∷ ts) us p = pair_tokens-append ts us (pair_token t p)

pair_statements-words :
    (c : NginxConfig) (p : Pairing) → pair_statements c p ≡ pair_tokens (words c) p
unfolding pair_statements pair_tokens
pair_statements-words nil p = refl
pair_statements-words (cons (statement tokens b) c) p =
    pair_statements-words c (pair_tokens tokens p) ∙ rw (pair_tokens-append tokens (words c) p) refl

pair_tokens-pairs_of :
    (ts : List Bytes) (prev : Bytes) (m : Dict)
    → (pair_tokens ts (record { count = 2; prev_token = prev; map = m })).map
      ≡ assign_all (pairs_of ts) m
unfolding pair_tokens pair_token
pair_tokens-pairs_of [] prev m = refl
pair_tokens-pairs_of (k ∷ []) prev m = refl
pair_tokens-pairs_of (k ∷ v ∷ ts) prev m =
    ap (λ x. (pair_tokens ts (record { count = 2; prev_token = k; map = x })).map)
      (assign-assign k [] v m)
    ∙ pair_tokens-pairs_of ts k (assign k v m)

pair_tokens_start :
    (ts : List Bytes) (prev : Bytes) (m : Dict)
    → (pair_tokens ts (record { count = 0; prev_token = prev; map = m })).map
      ≡ assign_all (pairs_of ts) m
unfolding pair_tokens pair_token
pair_tokens_start [] prev m = refl
pair_tokens_start (t ∷ ts) prev m = pair_tokens-pairs_of (t ∷ ts) prev m

-- A block adds its tokens, whichever statements they stand in, as keys and values in turn; a last key
-- without a value gets the empty value, and a later entry replaces an earlier one with its key.
pub get_child_block-words :
    (c : NginxConfig) (m : Dict) → get_child_block c m ≡ assign_all (pairs_of (words c)) m
unfolding get_child_block
get_child_block-words c m =
    ap (λ p. p.map) (pair_statements-words c (record { count = 0; prev_token = []; map = m }))
    ∙ pair_tokens_start (words c) [] m

-- Each token, with the block of its statement.
abbrev pub tagged : NginxConfig → List (Bytes × ChildBlock)
tagged nil = []
tagged (cons (statement tokens b) c) = map (λ t. (t, b)) tokens ++ tagged c

-- The tokens that follow a token `handler` that is not itself such a token. The flag says that one
-- stands in front.
abbrev pub handlers_in : Bool → List (Bytes × ChildBlock) → List (Bytes × ChildBlock)
handlers_in named [] = []
handlers_in true (x ∷ xs) = x ∷ handlers_in false xs
handlers_in false (x ∷ xs) = handlers_in (equal x.0 (codes "handler")) xs

-- The maps of handlers, each on top of the map of the one before; none if a handler has no block.
abbrev pub build : List (Bytes × ChildBlock) → Dict → Option (List Dict)
build [] m = some []
build ((name, null) ∷ hs) m = none
build ((name, block c) ∷ hs) m =
    let map = assign_all (pairs_of (words c)) (assign (codes "handler") name m) in
    Option.map (λ maps. map ∷ maps) (build hs map)

collect_tagged : List (Bytes × ChildBlock) → Collecting → Option Collecting
collect_tagged [] s = some s
collect_tagged ((token, b) ∷ xs) s = elim (collect_token token b s) [
  | none ↦ none
  | some s' ↦ collect_tagged xs s'
]

collect_tokens-tagged :
    (ts : List Bytes) (b : ChildBlock) (xs : List (Bytes × ChildBlock)) (s : Collecting)
    → collect_tagged (map (λ t. (t, b)) ts ++ xs) s
      ≡ elim (collect_tokens ts b s) [ none ↦ none | some s' ↦ collect_tagged xs s' ]
unfolding collect_tagged collect_tokens
collect_tokens-tagged [] b xs s = refl
collect_tokens-tagged (t ∷ ts) b xs s = elim (Option-cases (collect_token t b s)) [
  | inl e ↦ rw (e, collect_tagged, collect_tokens) refl
  | inr (s', e) ↦ rw (e, collect_tagged, collect_tokens) (collect_tokens-tagged ts b xs s')
]

collect_statements-tagged :
    (c : NginxConfig) (s : Collecting) → collect_statements c s ≡ collect_tagged (tagged c) s
unfolding collect_statements collect_tagged
collect_statements-tagged nil s = refl
collect_statements-tagged (cons (statement tokens b) c) s =
    elim (Option-cases (collect_tokens tokens b s)) [
      | inl e ↦ rw (collect_tokens-tagged tokens b (tagged c) s) (rw (e, collect_statements) refl)
      | inr (s', e) ↦
          rw (collect_tokens-tagged tokens b (tagged c) s)
            (rw (e, collect_statements) (collect_statements-tagged c s'))
    ]

abbrev maps_of : Option Collecting → Option (List Dict)
maps_of none = none
maps_of (some s) = some s.hand_maps

-- The state of the loop between two tokens.
abbrev collecting : Bool → List Dict → Dict → Collecting
collecting true done m = record { hand_maps = done; count = 1; in_handler = true; map_to_add = m }
collecting false done m = record { hand_maps = done; count = 0; in_handler = false; map_to_add = m }

abbrev behind : List Dict → Option (List Dict) → Option (List Dict)
behind done o = Option.map (λ maps. done ++ maps) o

collect_token_outside :
    (t : Bytes) (b : ChildBlock) (done : List Dict) (m : Dict)
    → collect_token t b (collecting false done m)
      ≡ some (collecting (equal t (codes "handler")) done m)
unfolding collect_token
collect_token_outside t b done m = elim (Bool-cases (equal t (codes "handler"))) [
  | inl e ↦ rw (e, collect_token) refl
  | inr e ↦ rw (e, collect_token) refl
]

collect_token_null :
    (t : Bytes) (done : List Dict) (m : Dict) → collect_token t null (collecting true done m) ≡ none
unfolding collect_token
collect_token_null t done m = elim (Bool-cases (equal t (codes "handler"))) [
  | inl e ↦ rw (e, collect_token) refl
  | inr e ↦ rw (e, collect_token) refl
]

-- The map of a handler, on top of another.
abbrev handler_map : Bytes → NginxConfig → Dict → Dict
handler_map name c m = assign_all (pairs_of (words c)) (assign (codes "handler") name m)

collect_token_block :
    (t : Bytes) (c : NginxConfig) (done : List Dict) (m : Dict)
    → collect_token t (block c) (collecting true done m)
      ≡ some (collecting false (done ++ handler_map t c m ∷ []) (handler_map t c m))
unfolding collect_token
collect_token_block t c done m =
    let k = get_child_block-words c (assign (codes "handler") t m) in
    elim (Bool-cases (equal t (codes "handler"))) [
      | inl e ↦ rw (e, collect_token) (rw k refl)
      | inr e ↦ rw (e, collect_token) (rw k refl)
    ]

behind-behind :
    (done : List Dict) (x : Dict) (o : Option (List Dict))
    → behind (done ++ x ∷ []) o ≡ behind done (Option.map (λ maps. x ∷ maps) o)
behind-behind done x none = refl
behind-behind done x (some maps) = rw append_assoc refl

collect_tagged-build :
    (xs : List (Bytes × ChildBlock)) (named : Bool) (done : List Dict) (m : Dict)
    → maps_of (collect_tagged xs (collecting named done m))
      ≡ behind done (build (handlers_in named xs) m)
unfolding collect_tagged
collect_tagged-build [] true done m = rw append-nil refl
collect_tagged-build [] false done m = rw append-nil refl
collect_tagged-build ((t, null) ∷ xs) true done m =
    rw (collect_token_null t done m, collect_tagged) refl
collect_tagged-build ((t, block c) ∷ xs) true done m =
    let map = handler_map t c m in
    rw (collect_token_block t c done m, collect_tagged)
      (collect_tagged-build xs false (done ++ map ∷ []) map)
    ∙ behind-behind done map (build (handlers_in false xs) map)
collect_tagged-build ((t, b) ∷ xs) false done m =
    rw (collect_token_outside t b done m, collect_tagged)
      (collect_tagged-build xs (equal t (codes "handler")) done m)

behind-nil : (o : Option (List Dict)) → behind [] o ≡ o
behind-nil none = refl
behind-nil (some maps) = refl

config_to_handlers-maps_of :
    (o : Option Collecting) → (elim o [ none ↦ none | some s ↦ some s.hand_maps ]) ≡ maps_of o
config_to_handlers-maps_of none = refl
config_to_handlers-maps_of (some s) = refl

-- For every configuration, handlers are named by the tokens behind `handler`, whichever statements they
-- stand in; each map has the tokens of the block of its name in pairs, on top of the map of the handler
-- before it; and the behaviour is undefined exactly if a handler has no block.
pub config_to_handlers-build :
    (c : NginxConfig) → config_to_handlers c ≡ build (handlers_in false (tagged c)) []
unfolding config_to_handlers
config_to_handlers-build c =
    config_to_handlers-maps_of _
    ∙ ap maps_of (collect_statements-tagged c (collecting false [] []))
    ∙ collect_tagged-build (tagged c) false [] []
    ∙ behind-nil _
