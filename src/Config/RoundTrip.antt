-- ===== src/Config/RoundTrip.antt =====
-- `Parse` reads back what `ToString` writes. Each lemma runs the parser over one piece of the text,
-- with any `rest` behind it.
pub mod Pieces
pub mod Whole
pub mod Reparse
use cs_3_boost_echo_static_s.Base.{◌≡◌, true, [], ◌∷◌, Bytes}
use cs_3_boost_echo_static_s.Config.{
  NginxConfig, nil, cons, NginxConfigStatement, statement, null, block,
}
use cs_3_boost_echo_static_s.Config.Frames.{emplace_back}
use cs_3_boost_echo_static_s.Config.Lexer.{TokenType, statement_end, end_block, ends_normal}

-- The text goes on with a byte that ends a bare word.
abbrev pub EndsWord : Bytes → Type 0
EndsWord [] = ⊥
EndsWord (d ∷ _) = ends_normal d ≡ true

-- The statements of `c`, emplaced one by one behind those of `top`.
abbrev pub emplace_all : NginxConfig → NginxConfig → NginxConfig
emplace_all top nil = top
emplace_all top (cons s c) = emplace_all (emplace_back top s) c

-- The last token of a printed statement, and of the statements printed behind the token `last`.
abbrev pub last_of_statement : NginxConfigStatement → TokenType
last_of_statement (statement ts null) = statement_end
last_of_statement (statement ts (block c)) = end_block

abbrev pub last_of : TokenType → NginxConfig → TokenType
last_of last nil = last
last_of last (cons s c) = last_of (last_of_statement s) c
