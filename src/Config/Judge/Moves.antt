-- ===== src/Config/Judge/Moves.antt =====
-- The rounds of `Parse` are moves of the automaton.
use cs_3_boost_echo_static_s.Base.{
  ℕ, suc, ◌≡◌, refl, inl, inr, true, false, Bool-cases, List, [], ◌∷◌, Bytes, arith, length,
}
use cs_3_boost_echo_static_s.Config.{NginxConfig, null}
use cs_3_boost_echo_static_s.Config.Judge.{Move, goes_on, accepts, refuses, stuck, move}
use cs_3_boost_echo_static_s.Config.Lexer.{
  TokenType, start, normal, start_block, end_block, comment, statement_end, eof, error,
}
use cs_3_boost_echo_static_s.Config.Parser.Invariant.{
  unfinished, TopCases, within, between, TopInv-cases, TopInv-IsDone, StackInv, close_owner,
}
use cs_3_boost_echo_static_s.Config.Parser.Keeps.{
  opens-not-normal, closes-not-normal, on_normal_empty, on_end_block_broken, on_end_block_empty,
  on_end_block_root, on_end_block_owner,
}
use cs_3_boost_echo_static_s.Config.Parser.Steps.{
  at, on_eof, opens, closes, on_first_token, on_next_token, on_open, on_semicolon,
}
use cs_3_boost_echo_static_s.Config.Parser.{
  ◌is◌, Progress, next, broken, finished, undefined, on_token,
}

-- A round, seen by the automaton.
abbrev pub move_of : Progress → Move
move_of (next q) = goes_on (length q.stack.open_configs) q.last_token_type
move_of broken = refuses
move_of finished = accepts
move_of undefined = stuck

module _ (depth : ℕ) (last : TokenType) where
  move-opens : opens last ≡ true → goes_on (suc depth) normal ≡ move normal (suc depth) last
  unfolding move
  move-opens h = ground arith

  move_semicolon_refused : (last is normal) ≡ false → refuses ≡ move statement_end depth last
  unfolding move
  move_semicolon_refused h = ground arith

  move_brace_refused : (last is normal) ≡ false → refuses ≡ move start_block depth last
  unfolding move
  move_brace_refused h = ground arith

  move_close_refused : closes last ≡ false → refuses ≡ move end_block depth last
  unfolding move
  move_close_refused h = ground arith

  move_close : closes last ≡ true → goes_on depth end_block ≡ move end_block (suc depth) last
  unfolding move
  move_close h = ground arith

  move_eof : closes last ≡ true → accepts ≡ move eof depth last
  unfolding move
  move_eof h = ground arith

  move_eof_refused : closes last ≡ false → refuses ≡ move eof depth last
  unfolding move
  move_eof_refused h = ground arith

move_close_stuck : (last : TokenType) → closes last ≡ true → stuck ≡ move end_block 0 last
unfolding move
move_close_stuck last h = ground arith

move_normal_stuck : (last : TokenType) → closes last ≡ true → stuck ≡ move normal 0 last
unfolding move
move_normal_stuck last h = ground arith

module _ (below : List NginxConfig) (root : NginxConfig) (v : Bytes) (top : NginxConfig)
    (last : TokenType) where
  normal-move :
      TopCases last top
      → move_of (on_token normal v (at (top ∷ below) root last))
        ≡ move normal (suc (length below)) last
  normal-move (within l (unfinished done ts e h k)) =
      rw (l, e, on_next_token done below root v ts null) (unfold move in refl)
  normal-move (between o h) =
      rw (on_first_token top below root v last o) (move-opens (length below) last o)

  statement_end-move :
      TopCases last top
      → move_of (on_token statement_end v (at (top ∷ below) root last))
        ≡ move statement_end (suc (length below)) last
  statement_end-move (within l (unfinished done ts e h k)) =
      rw (l, on_semicolon top below root v) (unfold move in refl)
  statement_end-move (between o h) =
      let n = opens-not-normal last o in
      unfold on_token in rw n (move_semicolon_refused (suc (length below)) last n)

  start_block-move :
      TopCases last top
      → move_of (on_token start_block v (at (top ∷ below) root last))
        ≡ move start_block (suc (length below)) last
  start_block-move (within l (unfinished done ts e h k)) =
      rw (l, e, on_open done below root v ts null) (unfold move in refl)
  start_block-move (between o h) =
      let n = opens-not-normal last o in
      unfold on_token in rw n (move_brace_refused (suc (length below)) last n)

end_block-move :
    (v : Bytes) (frames : List NginxConfig) (root : NginxConfig) (last : TokenType)
    → StackInv last frames root
    → move_of (on_token end_block v (at frames root last)) ≡ move end_block (length frames) last
end_block-move v frames root last i = elim (Bool-cases (closes last)) [
  | inr e ↦
      rw (on_end_block_broken v root last frames e) (move_close_refused (length frames) last e)
  | inl e ↦ closed frames i e
]
  where
    closed :
        (frames : List NginxConfig)
        → StackInv last frames root
        → closes last ≡ true
        → move_of (on_token end_block v (at frames root last)) ≡ move end_block (length frames) last
    closed [] i e = rw (on_end_block_empty v root last e) (move_close_stuck last e)
    closed (top ∷ []) i e = rw (on_end_block_root v root last top e) (move_close 0 last e)
    closed (top ∷ owner ∷ below) (h, (o, bs)) e =
        let (owner', u, d) = close_owner top o (TopInv-IsDone last top e h) in
        rw (on_end_block_owner v root last top owner owner' below e u)
          (move_close (suc (length below)) last e)

broken_eof :
    (v : Bytes) (frames : List NginxConfig) (root : NginxConfig) (last : TokenType)
    → closes last ≡ false
    → on_token eof v (at frames root last) ≡ broken
unfolding on_token
broken_eof v frames root last h = ground arith

eof-move :
    (v : Bytes) (frames : List NginxConfig) (root : NginxConfig) (last : TokenType)
    → move_of (on_token eof v (at frames root last)) ≡ move eof (length frames) last
eof-move v frames root last = elim (Bool-cases (closes last)) [
  | inl e ↦ rw (on_eof v frames root last e) (move_eof (length frames) last e)
  | inr e ↦ rw (broken_eof v frames root last e) (move_eof_refused (length frames) last e)
]

-- The root is popped.
empty-move :
    (t : TokenType) (v : Bytes) (root : NginxConfig) (last : TokenType)
    → StackInv last [] root
    → move_of (on_token t v (at [] root last)) ≡ move t 0 last
empty-move normal v root last (h, e) = rw (on_normal_empty v root last e) (move_normal_stuck last e)
empty-move statement_end v root last (h, e) =
    let n = closes-not-normal last e in unfold on_token in rw n (move_semicolon_refused 0 last n)
empty-move start_block v root last (h, e) =
    let n = closes-not-normal last e in unfold on_token in rw n (move_brace_refused 0 last n)
empty-move end_block v root last i = end_block-move v [] root last i
empty-move eof v root last i = eof-move v [] root last
empty-move comment v root last i = unfold on_token move in refl
empty-move start v root last i = unfold on_token move in refl
empty-move error v root last i = unfold on_token move in refl

pub token-move :
    (t : TokenType) (v : Bytes) (frames : List NginxConfig) (root : NginxConfig) (last : TokenType)
    → StackInv last frames root
    → move_of (on_token t v (at frames root last)) ≡ move t (length frames) last
token-move t v [] root last i = empty-move t v root last i
token-move normal v (top ∷ below) root last (i, bs) =
    normal-move below root v top last (TopInv-cases last top i)
token-move statement_end v (top ∷ below) root last (i, bs) =
    statement_end-move below root v top last (TopInv-cases last top i)
token-move start_block v (top ∷ below) root last (i, bs) =
    start_block-move below root v top last (TopInv-cases last top i)
token-move end_block v (top ∷ below) root last i = end_block-move v (top ∷ below) root last i
token-move eof v (top ∷ below) root last i = eof-move v (top ∷ below) root last
token-move comment v (top ∷ below) root last i = unfold on_token move in refl
token-move start v (top ∷ below) root last i = unfold on_token move in refl
token-move error v (top ∷ below) root last i = unfold on_token move in refl
