-- ===== src/Config/RoundTrip/Pieces.antt =====
-- Blanks, words and punctuation.
use cs_3_boost_echo_static_s.Base.{
  ℕ, zero, suc, ◌≡◌, refl, ◌∙◌, true, false, List, [], ◌∷◌, ◌++◌, append-nil, append_assoc, Bytes,
  All,
}
use cs_3_boost_echo_static_s.Config.{NginxConfig, statement, null}
use cs_3_boost_echo_static_s.Config.Frames.{emplace_back}
use cs_3_boost_echo_static_s.Config.Lexer.{
  TokenType, normal, start_block, end_block, statement_end, is_blank, parse_token,
}
use cs_3_boost_echo_static_s.Config.Parser.{ParserState, next, on_token}
use cs_3_boost_echo_static_s.Config.Parser.Rounds.{
  parse_from, parse_from-next, parse_from-eq_of_token,
}
use cs_3_boost_echo_static_s.Config.Parser.Steps.{at, opens, on_first_token, on_next_token}
use cs_3_boost_echo_static_s.Config.Print.{indent, print_tokens}
use cs_3_boost_echo_static_s.Config.Printable.{IsTokens}
use cs_3_boost_echo_static_s.Config.RoundTrip.{EndsWord}
use cs_3_boost_echo_static_s.Config.Tokens.{IsToken}
use cs_3_boost_echo_static_s.Config.Tokens.Reading.{parse_token-token, parse_token-blank}

pub skip_blank :
    (p : ParserState) (c : ℕ) (rest : Bytes)
    → is_blank c ≡ true
    → parse_from p (c ∷ rest) ≡ parse_from p rest
skip_blank p c rest h = parse_from-eq_of_token p (c ∷ rest) rest (parse_token-blank c rest h)

pub skip_indent :
    (p : ParserState) (depth : ℕ) (rest : Bytes)
    → parse_from p (indent depth ++ rest) ≡ parse_from p rest
unfolding indent
skip_indent p zero rest = refl
skip_indent p (suc depth) rest =
    skip_blank p b' ' _ refl ∙ skip_blank p b' ' _ refl ∙ skip_indent p depth rest

pub read_word :
    {t : Bytes} (p q : ParserState) (follow : Bytes)
    → IsToken t
    → EndsWord follow
    → on_token normal t p ≡ next q
    → parse_from p (t ++ follow) ≡ parse_from q follow
read_word p q [] h e s = absurd e
read_word {t} p q (d ∷ rest) h e s =
    let read = parse_token-token d rest h e in
    parse_from-next p q (t ++ (d ∷ rest)) (rw read s) ∙ rw read

-- One byte of punctuation, or the end of the stream.
pub read_semicolon :
    (p q : ParserState) (rest : Bytes)
    → on_token statement_end (b';' ∷ []) p ≡ next q
    → parse_from p (b';' ∷ rest) ≡ parse_from q rest
unfolding parse_token
read_semicolon p q rest s = parse_from-next p q (b';' ∷ rest) s

pub read_open_brace :
    (p q : ParserState) (rest : Bytes)
    → on_token start_block (b'{' ∷ []) p ≡ next q
    → parse_from p (b'{' ∷ rest) ≡ parse_from q rest
unfolding parse_token
read_open_brace p q rest s = parse_from-next p q (b'{' ∷ rest) s

pub read_close_brace :
    (p q : ParserState) (rest : Bytes)
    → on_token end_block (b'}' ∷ []) p ≡ next q
    → parse_from p (b'}' ∷ rest) ≡ parse_from q rest
unfolding parse_token
read_close_brace p q rest s = parse_from-next p q (b'}' ∷ rest) s

EndsWord-print_tokens :
    (us : List Bytes) (follow : Bytes)
    → EndsWord follow
    → EndsWord (print_tokens false us ++ follow)
unfolding print_tokens
EndsWord-print_tokens [] follow e = e
EndsWord-print_tokens (u ∷ us) follow e = refl

module _ (top : NginxConfig) (below : List NginxConfig) (root : NginxConfig) where
  read_more_tokens :
      (us ts : List Bytes) (follow : Bytes)
      → All IsToken us
      → EndsWord follow
      → parse_from
          (at (emplace_back top (statement ts null) ∷ below) root normal)
          (print_tokens false us ++ follow)
        ≡ parse_from (at (emplace_back top (statement (ts ++ us) null) ∷ below) root normal) follow
  unfolding print_tokens
  read_more_tokens [] ts follow h e = rw append-nil
  read_more_tokens (u ∷ us) ts follow (h, hs) e =
      skip_blank _ b' ' _ refl
      ∙ rw append_assoc (
          read_word _ _ (print_tokens false us ++ follow) h (EndsWord-print_tokens us follow e)
            (on_next_token top below root u ts null)
          ∙ read_more_tokens us (ts ++ u ∷ []) follow hs e
          ∙ rw append_assoc)

  pub read_tokens :
      (ts : List Bytes) (last : TokenType) (follow : Bytes)
      → IsTokens ts
      → opens last ≡ true
      → EndsWord follow
      → parse_from (at (top ∷ below) root last) (print_tokens true ts ++ follow)
        ≡ parse_from (at (emplace_back top (statement ts null) ∷ below) root normal) follow
  unfolding print_tokens
  read_tokens [] last follow h o e = absurd h
  read_tokens (t ∷ ts) last follow (h, hs) o e = rw append_assoc (
      read_word _ _ (print_tokens false ts ++ follow) h (EndsWord-print_tokens ts follow e)
        (on_first_token top below root t last o)
      ∙ read_more_tokens ts (t ∷ []) follow hs e)
