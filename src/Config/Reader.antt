-- ===== src/Config/Reader.antt =====
-- A recursive descent parser of configurations, without a stack, pointers or a last token: what `Parse`
-- of config_parser.cc returns, from the row of the tokens of a file.
pub mod Shorter
pub mod Run
pub mod Refines
use cs_3_boost_echo_static_s.Base.{
  ℕ, zero, suc, Bool, true, false, List, [], ◌∷◌, ◌++◌, Bytes, if◌then◌else◌, length,
}
use cs_3_boost_echo_static_s.Config.{
  NginxConfig, nil, cons, NginxConfigStatement, statement, null, block,
}
use cs_3_boost_echo_static_s.Config.Lexer.{
  TokenType, start, normal, start_block, end_block, comment, statement_end, eof, error,
}
use cs_3_boost_echo_static_s.Config.Scanner.{Lexeme}
use cs_3_boost_echo_static_s.Config.Parser.{ParseResult, returned, undefined_behaviour, out_of_fuel}

-- The statements of a block that is closed, with the tokens behind it; those of a block that the end of
-- the file cuts off; or those in front of an error. The row of tokens, or the fuel, can be too short.
pub data Read : Type 0 where
  closed : NginxConfig → List Lexeme → Read
  cut_off : NginxConfig → Read
  wrong : NginxConfig → Read
  short : Read

-- A statement in front of what is read.
abbrev pub put : NginxConfigStatement → Read → Read
put s (closed c rest) = closed (cons s c) rest
put s (cut_off c) = cut_off (cons s c)
put s (wrong c) = wrong (cons s c)
put s short = short

-- On behind a child block: `go` reads the statements that follow it.
abbrev pub nest : List Bytes → (List Lexeme → Read) → Read → Read
nest words go (closed c rest) = put (statement words (block c)) (go rest)
nest words go (cut_off c) = cut_off (cons (statement words (block c)) nil)
nest words go (wrong c) = wrong (cons (statement words (block c)) nil)
nest words go short = short

-- The flag says whether the block may end here: not behind its opening brace.
unfoldable mutual
  pub read_block : ℕ → Bool → List Lexeme → Read
  read_block zero may_end ts = short
  read_block (suc f) may_end [] = short
  read_block (suc f) may_end ((normal, word) ∷ ts) = read_statement f (word ∷ []) ts
  read_block (suc f) may_end ((comment, _) ∷ ts) = read_block f may_end ts
  read_block (suc f) may_end ((end_block, _) ∷ ts) = if may_end then closed nil ts else wrong nil
  read_block (suc f) may_end ((eof, _) ∷ ts) = if may_end then cut_off nil else wrong nil
  read_block (suc f) may_end (_ ∷ ts) = wrong nil

  pub read_statement : ℕ → List Bytes → List Lexeme → Read
  read_statement zero words ts = short
  read_statement (suc f) words [] = short
  read_statement (suc f) words ((normal, word) ∷ ts) = read_statement f (words ++ word ∷ []) ts
  read_statement (suc f) words ((comment, _) ∷ ts) = read_statement f words ts
  read_statement (suc f) words ((statement_end, _) ∷ ts) =
      put (statement words null) (read_block f true ts)
  read_statement (suc f) words ((start_block, _) ∷ ts) =
      nest words (read_block f true) (read_block f false ts)
  read_statement (suc f) words (_ ∷ ts) = wrong (cons (statement words null) nil)

-- Behind a closing brace too many, only the end of the file and a refused token are defined.
unfoldable pub behind_root : NginxConfig → List Lexeme → ParseResult
behind_root c [] = out_of_fuel
behind_root c ((comment, _) ∷ ts) = behind_root c ts
behind_root c ((eof, _) ∷ ts) = returned true c
behind_root c ((normal, _) ∷ ts) = undefined_behaviour
behind_root c ((end_block, _) ∷ ts) = undefined_behaviour
behind_root c (_ ∷ ts) = returned false c

abbrev pub finish : Read → ParseResult
finish (closed c rest) = behind_root c rest
finish (cut_off c) = returned true c
finish (wrong c) = returned false c
finish short = out_of_fuel

-- A whole file; each token is read once, so the fuel is enough.
unfoldable pub read_file : List Lexeme → ParseResult
unfolding read_block read_statement behind_root
read_file ts = finish (read_block (suc (length ts)) false ts)
