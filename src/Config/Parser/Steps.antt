-- ===== src/Config/Parser/Steps.antt =====
-- What single rounds of `Parse` do to the stack, in the states that a printed configuration reaches.
use cs_3_boost_echo_static_s.Base.{
  ◌≡◌, refl, true, Bool, ◌||◌, [], ◌∷◌, ◌++◌, List, Bytes, some, arith,
}
use cs_3_boost_echo_static_s.Config.{
  NginxConfig, nil, cons, NginxConfigStatement, statement, ChildBlock, null, block,
}
use cs_3_boost_echo_static_s.Config.Frames.{emplace_back, update_back, push_token, reset_child}
use cs_3_boost_echo_static_s.Config.Lexer.{
  TokenType, start, normal, start_block, end_block, statement_end, eof,
}
use cs_3_boost_echo_static_s.Config.Parser.{◌is◌, ParserState, next, finished, on_token}

abbrev pub at : List NginxConfig → NginxConfig → TokenType → ParserState
at frames root last = record {
  stack = record { open_configs = frames; root = root };
  last_token_type = last;
}

-- A statement may begin behind these tokens.
abbrev pub opens : TokenType → Bool
opens t = t is start || t is statement_end || t is start_block || t is end_block

-- A block or the file may end behind these.
abbrev pub closes : TokenType → Bool
closes t = t is statement_end || t is end_block

pub update_back-emplace_back :
    (f : NginxConfigStatement → NginxConfigStatement) (c : NginxConfig) (s : NginxConfigStatement)
    → update_back f (emplace_back c s) ≡ some (emplace_back c (f s))
unfolding update_back emplace_back
update_back-emplace_back f nil s = refl
update_back-emplace_back f (cons r nil) s = refl
update_back-emplace_back f (cons r (cons q c)) s =
    rw (update_back-emplace_back f (cons q c) s, update_back)

module _ (top : NginxConfig) (below : List NginxConfig) (root : NginxConfig) where
  pub on_first_token :
      (t : Bytes) (last : TokenType)
      → opens last ≡ true
      → on_token normal t (at (top ∷ below) root last)
        ≡ next (at (emplace_back top (statement (t ∷ []) null) ∷ below) root normal)
  unfolding on_token
  on_first_token t last h =
      ground (arith, update_back-emplace_back (push_token t) top (statement [] null))

  pub on_next_token :
      (t : Bytes) (ts : List Bytes) (b : ChildBlock)
      → on_token normal t (at (emplace_back top (statement ts b) ∷ below) root normal)
        ≡ next (at (emplace_back top (statement (ts ++ t ∷ []) b) ∷ below) root normal)
  unfolding on_token
  on_next_token t ts b =
      ground (arith, update_back-emplace_back (push_token t) top (statement ts b))

  pub on_open :
      (v : Bytes) (ts : List Bytes) (b : ChildBlock)
      → on_token start_block v (at (emplace_back top (statement ts b) ∷ below) root normal)
        ≡ next (at (nil ∷ emplace_back top (statement ts (block nil)) ∷ below) root start_block)
  unfolding on_token
  on_open v ts b =
      ground (arith, update_back-emplace_back (reset_child (block nil)) top (statement ts b))

  pub on_close :
      (v : Bytes) (c : NginxConfig) (ts : List Bytes) (b : ChildBlock) (last : TokenType)
      → closes last ≡ true
      → on_token end_block v (at (c ∷ emplace_back top (statement ts b) ∷ below) root last)
        ≡ next (at (emplace_back top (statement ts (block c)) ∷ below) root end_block)
  unfolding on_token
  on_close v c ts b last h =
      ground (arith, update_back-emplace_back (reset_child (block c)) top (statement ts b))

  pub on_semicolon :
      (v : Bytes)
      → on_token statement_end v (at (top ∷ below) root normal)
        ≡ next (at (top ∷ below) root statement_end)
  unfolding on_token
  on_semicolon v = refl

pub on_eof :
    (v : Bytes) (frames : List NginxConfig) (root : NginxConfig) (last : TokenType)
    → closes last ≡ true
    → on_token eof v (at frames root last) ≡ finished
unfolding on_token
on_eof v frames root last h = ground arith
