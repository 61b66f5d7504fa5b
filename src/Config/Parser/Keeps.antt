-- ===== src/Config/Parser/Keeps.antt =====
-- Every round of `Parse` keeps the invariant of its stack.
use cs_3_boost_echo_static_s.Base.{
  ◌≡◌, refl, inl, inr, true, false, Bool-cases, List, [], ◌∷◌, ◌++◌, Bytes, some, arith, All,
}
use cs_3_boost_echo_static_s.Config.{NginxConfig, nil, null, block}
use cs_3_boost_echo_static_s.Config.Frames.{update_back, reset_child}
use cs_3_boost_echo_static_s.Config.Lexer.{
  TokenType, start, normal, start_block, end_block, comment, statement_end, eof, error,
}
use cs_3_boost_echo_static_s.Config.Parser.{
  ◌is◌, ParserState, Progress, next, broken, undefined, on_token,
}
use cs_3_boost_echo_static_s.Config.Parser.Steps.{
  at, on_eof, opens, closes, on_first_token, on_next_token, on_open, on_semicolon,
}
use cs_3_boost_echo_static_s.Config.Printable.{none_left, plain}
use cs_3_boost_echo_static_s.Config.Tokens.{IsToken}
use cs_3_boost_echo_static_s.Config.Parser.Invariant.{
  IsOpen, unfinished, TopCases, within, between, TopInv-cases, TopInv-IsDone, StackInv, Inv,
  close_owner, emplace_back-ne-nil, IsPrintable-emplace_back, IsTokens-concat,
}

-- After a round the invariant holds again.
abbrev pub Keeps : Progress → Type 0
Keeps (next q) = Inv q
Keeps _ = Unit

pub opens-not-normal : (last : TokenType) → opens last ≡ true → (last is normal) ≡ false
opens-not-normal last h = ground arith

module _ (below : List NginxConfig) (root : NginxConfig) (bs : All (IsOpen (block nil)) below) where
  on_normal-Keeps :
      (v : Bytes) (top : NginxConfig) (last : TokenType)
      → IsToken v
      → TopCases last top
      → Keeps (on_token normal v (at (top ∷ below) root last))
  on_normal-Keeps v top last t (within l (unfinished done ts e h k)) =
      rw (l, e, on_next_token done below root v ts null)
        (unfinished done (ts ++ v ∷ []) refl h (IsTokens-concat ts k t), bs)
  on_normal-Keeps v top last t (between o h) =
      rw (on_first_token top below root v last o) (unfinished top (v ∷ []) refl h (t, tt), bs)

  on_statement_end-Keeps :
      (v : Bytes) (top : NginxConfig) (last : TokenType)
      → TopCases last top
      → Keeps (on_token statement_end v (at (top ∷ below) root last))
  on_statement_end-Keeps v top last (within l (unfinished done ts e h k)) =
      rw (l, on_semicolon top below root v)
        ((rw e (IsPrintable-emplace_back h (plain k)), rw e (emplace_back-ne-nil done _)), bs)
  on_statement_end-Keeps v top last (between o h) =
      let n = opens-not-normal last o in unfold on_token in rw n tt

  on_start_block-Keeps :
      (v : Bytes) (top : NginxConfig) (last : TokenType)
      → TopCases last top
      → Keeps (on_token start_block v (at (top ∷ below) root last))
  on_start_block-Keeps v top last (within l (unfinished done ts e h k)) =
      rw (l, e, on_open done below root v ts null) (none_left, (unfinished done ts refl h k, bs))
  on_start_block-Keeps v top last (between o h) =
      let n = opens-not-normal last o in unfold on_token in rw n tt

module _ (v : Bytes) (root : NginxConfig) (last : TokenType) where
  pub on_end_block_broken :
      (frames : List NginxConfig)
      → closes last ≡ false
      → on_token end_block v (at frames root last) ≡ broken
  unfolding on_token
  on_end_block_broken frames h = ground arith

  pub on_end_block_empty : closes last ≡ true → on_token end_block v (at [] root last) ≡ undefined
  unfolding on_token
  on_end_block_empty h = ground arith

  pub on_end_block_root :
      (top : NginxConfig)
      → closes last ≡ true
      → on_token end_block v (at (top ∷ []) root last) ≡ next (at [] top end_block)
  unfolding on_token
  on_end_block_root top h = ground arith

  pub on_end_block_owner :
      (top owner owner' : NginxConfig) (below : List NginxConfig)
      → closes last ≡ true
      → update_back (reset_child (block top)) owner ≡ some owner'
      → on_token end_block v (at (top ∷ owner ∷ below) root last)
        ≡ next (at (owner' ∷ below) root end_block)
  unfolding on_token
  on_end_block_owner top owner owner' below h u = ground arith

on_end_block-Keeps :
    (v : Bytes) (frames : List NginxConfig) (root : NginxConfig) (last : TokenType)
    → StackInv last frames root
    → closes last ≡ true
    → Keeps (on_token end_block v (at frames root last))
on_end_block-Keeps v [] root last h e = rw (on_end_block_empty v root last e) tt
on_end_block-Keeps v (top ∷ []) root last h e =
    rw (on_end_block_root v root last top e) (TopInv-IsDone last top e h.0, refl)
on_end_block-Keeps v (top ∷ owner ∷ below) root last (h, (o, bs)) e =
    let (owner', u, d) = close_owner top o (TopInv-IsDone last top e h) in
    rw (on_end_block_owner v root last top owner owner' below e u) (d, bs)

pub closes-not-normal : (last : TokenType) → closes last ≡ true → (last is normal) ≡ false
closes-not-normal last h = ground arith

pub on_normal_empty :
    (v : Bytes) (root : NginxConfig) (last : TokenType)
    → closes last ≡ true
    → on_token normal v (at [] root last) ≡ undefined
unfolding on_token
on_normal_empty v root last h = ground arith

on_eof-Keeps :
    (v : Bytes) (frames : List NginxConfig) (root : NginxConfig) (last : TokenType)
    → Keeps (on_token eof v (at frames root last))
on_eof-Keeps v frames root last = elim (Bool-cases (closes last)) [
  | inl e ↦ rw (on_eof v frames root last e) tt
  | inr e ↦ rw (broken_eof e) tt
]
  where
    broken_eof : closes last ≡ false → on_token eof v (at frames root last) ≡ broken
    broken_eof e = unfold on_token in ground arith

-- The root is popped: only the end of the file goes on without an error.
on_empty-Keeps :
    (t : TokenType) (v : Bytes) (root : NginxConfig) (last : TokenType)
    → StackInv last [] root
    → Keeps (on_token t v (at [] root last))
on_empty-Keeps normal v root last (h, e) = rw (on_normal_empty v root last e) tt
on_empty-Keeps statement_end v root last (h, e) =
    let n = closes-not-normal last e in unfold on_token in rw n tt
on_empty-Keeps start_block v root last (h, e) =
    let n = closes-not-normal last e in unfold on_token in rw n tt
on_empty-Keeps end_block v root last (h, e) = on_end_block-Keeps v [] root last (h, e) e
on_empty-Keeps comment v root last h = unfold on_token in h
on_empty-Keeps start v root last h = unfold on_token in tt
on_empty-Keeps error v root last h = unfold on_token in tt
on_empty-Keeps eof v root last h = on_eof-Keeps v [] root last

pub on_token-Keeps :
    (t : TokenType) (v : Bytes) (p : ParserState)
    → (t ≡ normal → IsToken v)
    → Inv p
    → Keeps (on_token t v p)
on_token-Keeps t v p w h = step t p.stack.open_configs w h
  where
    last : TokenType
    last = p.last_token_type

    step :
        (u : TokenType) (frames : List NginxConfig)
        → (u ≡ normal → IsToken v)
        → StackInv last frames p.stack.root
        → Keeps (on_token u v (at frames p.stack.root last))
    step u [] k i = on_empty-Keeps u v p.stack.root last i
    step normal (top ∷ below) k (i, bs) =
        on_normal-Keeps below p.stack.root bs v top last (k refl) (TopInv-cases last top i)
    step statement_end (top ∷ below) k (i, bs) =
        on_statement_end-Keeps below p.stack.root bs v top last (TopInv-cases last top i)
    step start_block (top ∷ below) k (i, bs) =
        on_start_block-Keeps below p.stack.root bs v top last (TopInv-cases last top i)
    step end_block (top ∷ below) k i = elim (Bool-cases (closes last)) [
      | inl e ↦ on_end_block-Keeps v (top ∷ below) p.stack.root last i e
      | inr e ↦ rw (on_end_block_broken v p.stack.root last (top ∷ below) e) tt
    ]
    step comment (top ∷ below) k i = unfold on_token in i
    step eof (top ∷ below) k i = on_eof-Keeps v (top ∷ below) p.stack.root last
    step start (top ∷ below) k i = unfold on_token in tt
    step error (top ∷ below) k i = unfold on_token in tt
