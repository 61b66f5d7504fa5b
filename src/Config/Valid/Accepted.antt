-- ===== src/Config/Valid/Accepted.antt =====
-- What the recursive descent parser accepts is written as a configuration.
use cs_3_boost_echo_static_s.Base.{
  ℕ, zero, suc, ◌≡◌, refl, sym, ap, ◌∙◌, subst, Bool, true, false, List, [], ◌∷◌, ◌++◌, Bytes,
  length,
}
use cs_3_boost_echo_static_s.Config.{NginxConfig, nil, NginxConfigStatement, statement, null, block}
use cs_3_boost_echo_static_s.Config.Lexer.{
  start, normal, start_block, end_block, comment, statement_end, eof, error,
}
use cs_3_boost_echo_static_s.Config.Parser.{ParseResult, returned, undefined_behaviour, out_of_fuel}
use cs_3_boost_echo_static_s.Config.Reader.{
  Read, closed, cut_off, wrong, short, put, nest, read_block, read_statement, behind_root, finish,
  read_file,
}
use cs_3_boost_echo_static_s.Config.Scanner.{Lexeme}
use cs_3_boost_echo_static_s.Config.Valid.{
  mark, visible, words_row, row, row_statement, IsCut, ends, later, inside, IsFile, cut, one_more,
}

words_row-concat :
    (words : List Bytes) (word : Bytes) (ts : List Lexeme)
    → words_row (words ++ word ∷ []) ts ≡ words_row words ((normal, word) ∷ ts)
unfolding words_row
words_row-concat [] word ts = refl
words_row-concat (w ∷ words) word ts = ap (◌∷◌ (normal, w)) (words_row-concat words word ts)

-- What is read is what is written.
abbrev Writes : List Lexeme → Read → Type 0
Writes ts (closed c rest) = ts ≡ row c (mark end_block ∷ visible rest)
Writes ts (cut_off c) = (tail : List Lexeme) × IsCut tail c ts
Writes ts (wrong c) = Unit
Writes ts short = Unit

Writes-put :
    (ts : List Lexeme) (s : NginxConfigStatement) (r : Read)
    → Writes ts r
    → Writes (row_statement s ts) (put s r)
Writes-put ts s (closed c rest) h = unfold row in ap (row_statement s) h
Writes-put ts s (cut_off c) (tail, h) = (tail, later s h)
Writes-put ts s (wrong c) h = tt
Writes-put ts s short h = tt

Writes-nest :
    (ts : List Lexeme) (words : List Bytes) (go : List Lexeme → Read) (r : Read)
    → ((rest : List Lexeme) → Writes (visible rest) (go rest))
    → Writes ts r
    → Writes (words_row words (mark start_block ∷ ts)) (nest words go r)
Writes-nest ts words go (closed c rest) k h =
    subst (λ v. Writes (words_row words (mark start_block ∷ v)) (nest words go (closed c rest)))
      (sym h)
      (unfold row_statement in
        Writes-put (visible rest) (statement words (block c)) (go rest) (k rest))
Writes-nest ts words go (cut_off c) k (tail, h) = (tail, inside words h)
Writes-nest ts words go (wrong c) k h = tt
Writes-nest ts words go short k h = tt

mutual
  unfolding read_block read_statement visible row row_statement words_row

  read_block-Writes :
      (f : ℕ) (e : Bool) (ts : List Lexeme) → Writes (visible ts) (read_block f e ts)
  read_block-Writes zero e ts = tt
  read_block-Writes (suc f) e [] = tt
  read_block-Writes (suc f) e ((normal, w) ∷ ts) = read_statement-Writes f (w ∷ []) ts
  read_block-Writes (suc f) e ((comment, w) ∷ ts) = read_block-Writes f e ts
  read_block-Writes (suc f) true ((end_block, w) ∷ ts) = refl
  read_block-Writes (suc f) false ((end_block, w) ∷ ts) = tt
  read_block-Writes (suc f) true ((eof, w) ∷ ts) = (visible ts, ends)
  read_block-Writes (suc f) false ((eof, w) ∷ ts) = tt
  read_block-Writes (suc f) e ((start, w) ∷ ts) = tt
  read_block-Writes (suc f) e ((start_block, w) ∷ ts) = tt
  read_block-Writes (suc f) e ((statement_end, w) ∷ ts) = tt
  read_block-Writes (suc f) e ((error, w) ∷ ts) = tt

  read_statement-Writes :
      (f : ℕ) (words : List Bytes) (ts : List Lexeme)
      → Writes (words_row words (visible ts)) (read_statement f words ts)
  read_statement-Writes zero words ts = tt
  read_statement-Writes (suc f) words [] = tt
  read_statement-Writes (suc f) words ((normal, w) ∷ ts) =
      subst (λ v. Writes v (read_statement f (words ++ w ∷ []) ts))
        (words_row-concat words w (visible ts)) (read_statement-Writes f (words ++ w ∷ []) ts)
  read_statement-Writes (suc f) words ((comment, w) ∷ ts) = read_statement-Writes f words ts
  read_statement-Writes (suc f) words ((statement_end, w) ∷ ts) =
      Writes-put (visible ts) (statement words null) (read_block f true ts)
        (read_block-Writes f true ts)
  read_statement-Writes (suc f) words ((start_block, w) ∷ ts) =
      Writes-nest (visible ts) words (read_block f true) (read_block f false ts)
        (read_block-Writes f true) (read_block-Writes f false ts)
  read_statement-Writes (suc f) words ((start, w) ∷ ts) = tt
  read_statement-Writes (suc f) words ((end_block, w) ∷ ts) = tt
  read_statement-Writes (suc f) words ((eof, w) ∷ ts) = tt
  read_statement-Writes (suc f) words ((error, w) ∷ ts) = tt

config_of : ParseResult → NginxConfig
config_of (returned b c) = c
config_of undefined_behaviour = nil
config_of out_of_fuel = nil

returned-config : (a b : Bool) (c d : NginxConfig) → returned a c ≡ returned b d → c ≡ d
unfolding config_of
returned-config a b c d h = ap config_of h

behind_root-Writes :
    (c d : NginxConfig) (ts : List Lexeme)
    → behind_root c ts ≡ returned true d
    → (c ≡ d) × (tail : List Lexeme) × (visible ts ≡ mark eof ∷ tail)
unfolding behind_root visible
behind_root-Writes c d [] h = cc
behind_root-Writes c d ((comment, w) ∷ ts) h = behind_root-Writes c d ts h
behind_root-Writes c d ((eof, w) ∷ ts) h = (returned-config true true c d h, visible ts, refl)
behind_root-Writes c d ((normal, w) ∷ ts) h = cc
behind_root-Writes c d ((end_block, w) ∷ ts) h = cc
behind_root-Writes c d ((start, w) ∷ ts) h = cc
behind_root-Writes c d ((start_block, w) ∷ ts) h = cc
behind_root-Writes c d ((statement_end, w) ∷ ts) h = cc
behind_root-Writes c d ((error, w) ∷ ts) h = cc

finish-IsFile :
    (ts : List Lexeme) (r : Read) (d : NginxConfig)
    → Writes ts r
    → finish r ≡ returned true d
    → IsFile d ts
finish-IsFile ts (closed c rest) d w h =
    let (e, tail, v) = behind_root-Writes c d rest h in one_more tail (w ∙ rw (e, v) refl)
finish-IsFile ts (cut_off c) d (tail, w) h =
    cut tail (subst (λ x. IsCut tail x ts) (returned-config true true c d h) w)
finish-IsFile ts (wrong c) d w h = cc
finish-IsFile ts short d w h = cc

pub read_file-IsFile :
    (ts : List Lexeme) (c : NginxConfig) → read_file ts ≡ returned true c → IsFile c (visible ts)
unfolding read_file
read_file-IsFile ts c h =
    finish-IsFile (visible ts) (read_block (suc (length ts)) false ts) c
      (read_block-Writes (suc (length ts)) false ts) h
