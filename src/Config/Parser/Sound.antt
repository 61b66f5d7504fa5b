-- ===== src/Config/Parser/Sound.antt =====
-- Every configuration that `Parse` accepts is printable.
use cs_3_boost_echo_static_s.Base.{
  ℕ, zero, suc, ◌≡◌, ◌≢◌, inl, inr, true, false, List, [], ◌∷◌, Bytes, arith, length, All, subst,
}
use cs_3_boost_echo_static_s.Config.{NginxConfig, nil, block}
use cs_3_boost_echo_static_s.Config.Frames.{out_config, close_onto}
use cs_3_boost_echo_static_s.Config.Lexer.{TokenType, eof, Token, parse_token}
use cs_3_boost_echo_static_s.Config.Parser.{
  ParserState, finished, on_token, returned, undefined_behaviour, parse_loop, initial_state, parse,
}
use cs_3_boost_echo_static_s.Config.Parser.Rounds.{Progress-cases}
use cs_3_boost_echo_static_s.Config.Parser.Steps.{closes}
use cs_3_boost_echo_static_s.Config.Printable.{IsPrintable, none_left}
use cs_3_boost_echo_static_s.Config.Tokens.Sound.{parse_token-StandsIn}
use cs_3_boost_echo_static_s.Config.Parser.Invariant.{
  IsDone, IsOpen, TopInv-IsDone, StackInv, Inv, close_owner,
}
use cs_3_boost_echo_static_s.Config.Parser.Keeps.{Keeps, on_token-Keeps}

finished-closes :
    (t : TokenType) (v : Bytes) (p : ParserState)
    → on_token t v p ≡ finished
    → closes p.last_token_type ≡ true
unfolding on_token
finished-closes eof v p h = ground arith
finished-closes _ v p h = ground arith

close_onto-IsDone :
    (c : NginxConfig) (below : List NginxConfig)
    → IsDone c
    → All (IsOpen (block nil)) below
    → IsDone (close_onto c below)
unfolding close_onto
close_onto-IsDone c [] d bs = d
close_onto-IsDone c (owner ∷ below) d (o, bs) =
    let (owner', u, d') = close_owner c o d in
    rw (u, close_onto) (close_onto-IsDone owner' below d' bs)

out_config-IsDone :
    (frames : List NginxConfig) (root : NginxConfig) (last : TokenType)
    → closes last ≡ true
    → StackInv last frames root
    → IsDone (out_config (record { open_configs = frames; root = root }))
unfolding out_config
out_config-IsDone [] root last e (d, _) = d
out_config-IsDone (top ∷ below) root last e (h, bs) =
    close_onto-IsDone top below (TopInv-IsDone last top e h) bs

parse_loop-IsDone :
    (f : ℕ) (p : ParserState) (input : Bytes) {c : NginxConfig}
    → Inv p
    → parse_loop f p input ≡ returned true c
    → IsDone c
unfolding parse_loop
parse_loop-IsDone zero p input i h = cc
parse_loop-IsDone (suc f) p input {c} i h = elim (Progress-cases (on_token t.type t.value p)) [
  | inl (q, e) ↦ parse_loop-IsDone f q t.rest (rw e at kept) (rw (e, parse_loop) at h)
  | inr (inl e) ↦ absurd (not_true (rw (e, parse_loop) at h))
  | inr (inr (inl e)) ↦ result (rw (e, parse_loop) at h) (
      out_config-IsDone p.stack.open_configs p.stack.root p.last_token_type
        (finished-closes t.type t.value p e) i)
  | inr (inr (inr e)) ↦ absurd (not_undefined (rw (e, parse_loop) at h))
]
  where
    t : Token
    t = parse_token input

    kept : Keeps (on_token t.type t.value p)
    kept = on_token-Keeps t.type t.value p (λ n. (parse_token-StandsIn input n).is_token) i

    not_true : {b : NginxConfig} → returned false b ≡ returned true c → ⊥
    not_true e = cc

    not_undefined : undefined_behaviour ≡ returned true c → ⊥
    not_undefined e = cc

    result : {b : NginxConfig} → returned true b ≡ returned true c → IsDone b → IsDone c
    result e d = subst IsDone (cc) d

-- A configuration that `Parse` accepts is not empty, each of its statements has a token, each token
-- is a word or a quoted string, and no block is empty.
pub parse-IsPrintable :
    (input : Bytes) {c : NginxConfig}
    → parse input nil ≡ returned true c
    → IsPrintable c × (c ≢ nil)
unfolding parse
parse-IsPrintable input h =
    parse_loop-IsDone (suc (length input)) (initial_state nil) input (none_left, tt) h
