-- ===== src/Config/Valid.antt =====
-- The files that `Parse` of config_parser.cc accepts, without any parser: the rows of tokens that a
-- configuration is written as.
pub mod Accepted
pub mod Visible
pub mod Accepts
pub mod Exact
use cs_3_boost_echo_static_s.Base.{◌≡◌, List, [], ◌∷◌, Bytes}
use cs_3_boost_echo_static_s.Config.{
  NginxConfig, nil, cons, NginxConfigStatement, statement, null, block,
}
use cs_3_boost_echo_static_s.Config.Lexer.{
  TokenType, normal, start_block, end_block, comment, statement_end, eof,
}
use cs_3_boost_echo_static_s.Config.Scanner.{Lexeme}

-- A token whose text says nothing.
abbrev pub mark : TokenType → Lexeme
mark t = (t, [])

-- The tokens without the comments, and without the texts of marks.
unfoldable pub visible : List Lexeme → List Lexeme
visible [] = []
visible ((comment, _) ∷ ts) = visible ts
visible ((normal, word) ∷ ts) = (normal, word) ∷ visible ts
visible ((t, _) ∷ ts) = mark t ∷ visible ts

-- What is written for a configuration, in front of the rest.
unfoldable pub words_row : List Bytes → List Lexeme → List Lexeme
words_row [] rest = rest
words_row (word ∷ words) rest = (normal, word) ∷ words_row words rest

unfoldable mutual
  unfolding words_row

  pub row : NginxConfig → List Lexeme → List Lexeme
  row nil rest = rest
  row (cons s c) rest = row_statement s (row c rest)

  pub row_statement : NginxConfigStatement → List Lexeme → List Lexeme
  row_statement (statement words null) rest = words_row words (mark statement_end ∷ rest)
  row_statement (statement words (block c)) rest =
      words_row words (mark start_block ∷ row c (mark end_block ∷ rest))

-- The row of a configuration up to the end of the file, where the braces of blocks that are still open
-- may be left out.
pub data IsCut (tail : List Lexeme) : NginxConfig → List Lexeme → Type 0 where
  ends : IsCut tail nil (mark eof ∷ tail)
  later :
      {c : NginxConfig} {ts : List Lexeme} (s : NginxConfigStatement)
      → IsCut tail c ts
      → IsCut tail (cons s c) (row_statement s ts)
  inside :
      {c : NginxConfig} {ts : List Lexeme} (words : List Bytes)
      → IsCut tail c ts
      → IsCut tail (cons (statement words (block c)) nil) (words_row words (mark start_block ∷ ts))

-- Or the whole row with one brace more.
pub data IsFile (c : NginxConfig) (ts : List Lexeme) : Type 0 where
  cut : (tail : List Lexeme) → IsCut tail c ts → IsFile c ts
  one_more : (tail : List Lexeme) → ts ≡ row c (mark end_block ∷ mark eof ∷ tail) → IsFile c ts
