-- ===== src/Config/Reader/Shorter.antt =====
-- What is left behind a block is no longer than what it is read from.
use cs_3_boost_echo_static_s.Base.{
  ℕ, zero, suc, ◌≤◌, Bool, true, false, List, [], ◌∷◌, ◌++◌, Bytes, arith, length,
}
use cs_3_boost_echo_static_s.Config.{NginxConfigStatement}
use cs_3_boost_echo_static_s.Config.Lexer.{
  start, normal, start_block, end_block, comment, statement_end, eof, error,
}
use cs_3_boost_echo_static_s.Config.Scanner.{Lexeme}
use cs_3_boost_echo_static_s.Config.Reader.{
  Read, closed, cut_off, wrong, short, put, read_block, read_statement, nest,
}

abbrev pub Leaves : ℕ → Read → Type 0
Leaves n (closed c rest) = length rest ≤ n
Leaves n _ = Unit

Leaves-put :
    {n m : ℕ} (s : NginxConfigStatement) (r : Read) → n ≤ m → Leaves n r → Leaves m (put s r)
Leaves-put s (closed c rest) h k = omega arith
Leaves-put s (cut_off c) h k = tt
Leaves-put s (wrong c) h k = tt
Leaves-put s short h k = tt

Leaves-weaken : {n m : ℕ} (r : Read) → n ≤ m → Leaves n r → Leaves m r
Leaves-weaken (closed c rest) h k = omega arith
Leaves-weaken (cut_off c) h k = tt
Leaves-weaken (wrong c) h k = tt
Leaves-weaken short h k = tt

nest-Leaves :
    (n : ℕ) (words : List Bytes) (go : List Lexeme → Read) (r : Read)
    → ((ts : List Lexeme) → Leaves (length ts) (go ts))
    → Leaves n r
    → Leaves n (nest words go r)
nest-Leaves n words go (closed c rest) k h = Leaves-put _ _ h (k rest)
nest-Leaves n words go (cut_off c) k h = tt
nest-Leaves n words go (wrong c) k h = tt
nest-Leaves n words go short k h = tt

mutual
  unfolding read_block read_statement

  pub read_block-Leaves :
      (f : ℕ) (e : Bool) (ts : List Lexeme) → Leaves (length ts) (read_block f e ts)
  read_block-Leaves zero e ts = tt
  read_block-Leaves (suc f) e [] = tt
  read_block-Leaves (suc f) e ((normal, w) ∷ ts) =
      Leaves-weaken _ (omega arith) (read_statement-Leaves f (w ∷ []) ts)
  read_block-Leaves (suc f) e ((comment, w) ∷ ts) =
      Leaves-weaken _ (omega arith) (read_block-Leaves f e ts)
  read_block-Leaves (suc f) true ((end_block, w) ∷ ts) = omega arith
  read_block-Leaves (suc f) false ((end_block, w) ∷ ts) = tt
  read_block-Leaves (suc f) true ((eof, w) ∷ ts) = tt
  read_block-Leaves (suc f) false ((eof, w) ∷ ts) = tt
  read_block-Leaves (suc f) e ((start, w) ∷ ts) = tt
  read_block-Leaves (suc f) e ((start_block, w) ∷ ts) = tt
  read_block-Leaves (suc f) e ((statement_end, w) ∷ ts) = tt
  read_block-Leaves (suc f) e ((error, w) ∷ ts) = tt

  read_statement-Leaves :
      (f : ℕ) (words : List Bytes) (ts : List Lexeme)
      → Leaves (length ts) (read_statement f words ts)
  read_statement-Leaves zero words ts = tt
  read_statement-Leaves (suc f) words [] = tt
  read_statement-Leaves (suc f) words ((normal, w) ∷ ts) =
      Leaves-weaken _ (omega arith) (read_statement-Leaves f (words ++ w ∷ []) ts)
  read_statement-Leaves (suc f) words ((comment, w) ∷ ts) =
      Leaves-weaken _ (omega arith) (read_statement-Leaves f words ts)
  read_statement-Leaves (suc f) words ((statement_end, w) ∷ ts) =
      Leaves-put _ _ (omega arith) (read_block-Leaves f true ts)
  read_statement-Leaves (suc f) words ((start_block, w) ∷ ts) = Leaves-weaken _ (omega arith) (
      nest-Leaves _ words (read_block f true) (read_block f false ts) (read_block-Leaves f true)
        (read_block-Leaves f false ts))
  read_statement-Leaves (suc f) words ((start, w) ∷ ts) = tt
  read_statement-Leaves (suc f) words ((end_block, w) ∷ ts) = tt
  read_statement-Leaves (suc f) words ((eof, w) ∷ ts) = tt
  read_statement-Leaves (suc f) words ((error, w) ∷ ts) = tt
