-- ===== src/Config/Frames.antt =====
-- The stack of `NginxConfig*` in `NginxConfigParser::Parse`. Each entry below the top points to the
-- configuration whose last statement owns the entry above it. The model keeps the pointed-to
-- configurations themselves, top first, and writes a block back into its owner when its entry
-- goes; `root` is the out-parameter after its own entry is gone.
use cs_3_boost_echo_static_s.Base.{List, [], ◌∷◌, ◌++◌, Bytes, Option, none, some}
use cs_3_boost_echo_static_s.Config.{
  NginxConfig, nil, cons, NginxConfigStatement, statement, ChildBlock, block,
}

-- `statements_.emplace_back(s)`
unfoldable pub emplace_back : NginxConfig → NginxConfigStatement → NginxConfig
emplace_back nil s = cons s nil
emplace_back (cons r c) s = cons r (emplace_back c s)

-- A write through `statements_.back()`; the vector must not be empty.
unfoldable pub update_back :
    (NginxConfigStatement → NginxConfigStatement) → NginxConfig → Option NginxConfig
update_back f nil = none
update_back f (cons s nil) = some (cons (f s) nil)
update_back f (cons s (cons r c)) = elim (update_back f (cons r c)) [
  | none ↦ none
  | some c' ↦ some (cons s c')
]

-- `tokens_.push_back(token)`
abbrev pub push_token : Bytes → NginxConfigStatement → NginxConfigStatement
push_token t (statement ts b) = statement (ts ++ t ∷ []) b

-- `child_block_.reset(new_config)`
abbrev pub reset_child : ChildBlock → NginxConfigStatement → NginxConfigStatement
reset_child b (statement ts _) = statement ts b

pub record ConfigStack : Type 0 where
  pub open_configs : List NginxConfig
  pub root : NginxConfig

-- `config_stack.push(new_config)`, behind the `reset` that makes it a child.
unfoldable pub push_config : ConfigStack → Option ConfigStack
unfolding update_back
push_config s = elim s.open_configs [
  | [] ↦ none
  | top ∷ below ↦ elim (update_back (reset_child (block nil)) top) [
    | none ↦ none
    | some top' ↦ some (record s { open_configs = nil ∷ top' ∷ below })
  ]
]

-- `config_stack.pop()`; on an empty stack it is undefined.
pop_from : List NginxConfig → NginxConfig → Option ConfigStack
pop_from [] root = none
pop_from (top ∷ []) root = some (record { open_configs = []; root = top })
pop_from (top ∷ owner ∷ below) root = elim (update_back (reset_child (block top)) owner) [
  | none ↦ none
  | some owner' ↦ some (record { open_configs = owner' ∷ below; root = root })
]

unfoldable pub pop_config : ConfigStack → Option ConfigStack
unfolding pop_from update_back
pop_config s = pop_from s.open_configs s.root

-- A write to `config_stack.top()`; on an empty stack it is undefined.
unfoldable pub update_top : (NginxConfig → Option NginxConfig) → ConfigStack → Option ConfigStack
update_top f s = elim s.open_configs [
  | [] ↦ none
  | top ∷ below ↦ elim (f top) [
    | none ↦ none
    | some top' ↦ some (record s { open_configs = top' ∷ below })
  ]
]

-- What the out-parameter holds: every open block is in the last statement of its owner.
unfoldable pub close_onto : NginxConfig → List NginxConfig → NginxConfig
close_onto c [] = c
close_onto c (owner ∷ below) = elim (update_back (reset_child (block c)) owner) [
  | none ↦ close_onto owner below
  | some owner' ↦ close_onto owner' below
]

out_config_of : List NginxConfig → NginxConfig → NginxConfig
out_config_of [] root = root
out_config_of (top ∷ below) root = close_onto top below

unfoldable pub out_config : ConfigStack → NginxConfig
unfolding out_config_of close_onto update_back
out_config s = out_config_of s.open_configs s.root
