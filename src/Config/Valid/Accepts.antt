-- ===== src/Config/Valid/Accepts.antt =====
-- What a configuration is written as is accepted.
use cs_3_boost_echo_static_s.Base.{
  ◌≡◌, ◌≢◌, refl, ap, ◌∙◌, true, List, [], ◌∷◌, ◌++◌, append_assoc, append-nil, Bytes, suc, length,
}
use cs_3_boost_echo_static_s.Config.{
  NginxConfig, nil, cons, NginxConfigStatement, statement, null, block,
}
use cs_3_boost_echo_static_s.Config.Frames.{emplace_back, close_onto, out_config}
use cs_3_boost_echo_static_s.Config.Lexer.{
  TokenType, start, normal, start_block, end_block, statement_end, eof,
}
use cs_3_boost_echo_static_s.Config.Parser.{on_token, returned, initial_state, parse}
use cs_3_boost_echo_static_s.Config.Parser.Keeps.{on_end_block_root}
use cs_3_boost_echo_static_s.Config.Parser.Steps.{
  at, opens, closes, on_first_token, on_next_token, on_open, on_close, on_semicolon,
}
use cs_3_boost_echo_static_s.Config.Printable.{
  IsTokens, IsPrintable, none_left, and_then, IsStatement, plain, nested,
}
use cs_3_boost_echo_static_s.Config.RoundTrip.{emplace_all, last_of, last_of_statement}
use cs_3_boost_echo_static_s.Config.RoundTrip.Whole.{
  emplace_all-nil, emplace_all-cons-nil, opens-last_of_statement, closes-last_of_statement,
  closes-last_of, closes-last_of_cons,
}
use cs_3_boost_echo_static_s.Config.Reader.Run.{
  run, run-next, run-finished, eof-finished, parse_loop-run,
}
use cs_3_boost_echo_static_s.Config.Reader.Refines.{owner, close_onto-owner}
use cs_3_boost_echo_static_s.Config.Scanner.{Lexeme, lexemes}
use cs_3_boost_echo_static_s.Config.Valid.Visible.{run-visible}
use cs_3_boost_echo_static_s.Config.Valid.{
  mark, visible, words_row, row, row_statement, IsCut, ends, later, inside, IsFile, cut, one_more,
}

module _ (top : NginxConfig) (below : List NginxConfig) (root : NginxConfig)
    (rest : List Lexeme) where
  run-more_words :
      (ws words : List Bytes)
      → run (at (emplace_back top (statement ws null) ∷ below) root normal) (words_row words rest)
        ≡ run (at (emplace_back top (statement (ws ++ words) null) ∷ below) root normal) rest
  unfolding words_row
  run-more_words ws [] = rw (append-nil ws) refl
  run-more_words ws (w ∷ words) =
      run-next normal w _ _ _ (on_next_token top below root w ws null)
      ∙ run-more_words (ws ++ w ∷ []) words
      ∙ rw (append_assoc ws (w ∷ []) words) refl

  run-words_row :
      (words : List Bytes) (last : TokenType)
      → IsTokens words
      → opens last ≡ true
      → run (at (top ∷ below) root last) (words_row words rest)
        ≡ run (at (emplace_back top (statement words null) ∷ below) root normal) rest
  unfolding words_row
  run-words_row [] last h o = absurd h
  run-words_row (w ∷ words) last h o =
      run-next normal w _ _ _ (on_first_token top below root w last o)
      ∙ run-more_words (w ∷ []) words

mutual
  unfolding row row_statement emplace_back

  run-row :
      {c : NginxConfig} (top : NginxConfig) (below : List NginxConfig) (root : NginxConfig)
      (last : TokenType) (rest : List Lexeme)
      → IsPrintable c
      → opens last ≡ true
      → run (at (top ∷ below) root last) (row c rest)
        ≡ run (at (emplace_all top c ∷ below) root (last_of last c)) rest
  run-row top below root last rest none_left o = refl
  run-row top below root last rest (and_then {s} {c} h hs) o =
      run-row_statement top below root last (row c rest) h o
      ∙ run-row (emplace_back top s) below root (last_of_statement s) rest hs
          (opens-last_of_statement s)

  run-row_statement :
      {s : NginxConfigStatement} (top : NginxConfig) (below : List NginxConfig) (root : NginxConfig)
      (last : TokenType) (rest : List Lexeme)
      → IsStatement s
      → opens last ≡ true
      → run (at (top ∷ below) root last) (row_statement s rest)
        ≡ run (at (emplace_back top s ∷ below) root (last_of_statement s)) rest
  run-row_statement top below root last rest (plain {ts} h) o =
      run-words_row top below root (mark statement_end ∷ rest) ts last h o
      ∙ run-next statement_end [] _ rest _ (on_semicolon _ below root [])
  run-row_statement top below root last rest (nested {ts} {s} {c} h hs hc) o =
      let inner = row c (mark end_block ∷ rest) in
      run-words_row top below root (mark start_block ∷ row_statement s inner) ts last h o
      ∙ run-next start_block [] _ _ _ (on_open top below root [] ts null)
      ∙ run-row_statement nil (owner top below root ts ∷ below) root start_block inner hs refl
      ∙ run-row (cons s nil) (owner top below root ts ∷ below) root (last_of_statement s)
          (mark end_block ∷ rest) hc (opens-last_of_statement s)
      ∙ run-next end_block [] _ rest _ (
          on_close top below root [] _ ts (block nil) _
            (closes-last_of (last_of_statement s) c (closes-last_of_statement s)))
      ∙ rw emplace_all-cons-nil refl

-- Up to the end of the file, where it closes.
run-IsCut :
    {tail : List Lexeme} {c : NginxConfig} {ts : List Lexeme} (top : NginxConfig)
    (below : List NginxConfig) (root : NginxConfig) (last : TokenType)
    → IsCut tail c ts
    → IsPrintable c
    → opens last ≡ true
    → closes (last_of last c) ≡ true
    → run (at (top ∷ below) root last) ts ≡ returned true (close_onto (emplace_all top c) below)
run-IsCut {tail} top below root last ends p o e =
    run-finished top below root last eof [] tail (eof-finished [] _ e)
run-IsCut top below root last (later {c} {ts} s k) (and_then h hs) o e =
    run-row_statement top below root last ts h o
    ∙ run-IsCut (emplace_back top s) below root (last_of_statement s) k hs
        (opens-last_of_statement s) e
run-IsCut top below root last (inside {c} {ts} words k)
      (and_then (nested {s = s'} {c = c'} h hs hc) none_left) o e =
    run-words_row top below root (mark start_block ∷ ts) words last h o
    ∙ run-next start_block [] _ _ _ (on_open top below root [] words null)
    ∙ run-IsCut nil (owner top below root words ∷ below) root start_block k (and_then hs hc) refl
        (closes-last_of_cons start_block s' c')
    ∙ ap (returned true) (rw (emplace_all-nil c) (close_onto-owner top below root words c))

run-IsFile :
    (c : NginxConfig) (ts : List Lexeme)
    → IsPrintable c
    → c ≢ nil
    → IsFile c ts
    → run (initial_state nil) ts ≡ returned true c
run-IsFile nil ts p n h = absurd (n refl)
run-IsFile (cons s c) ts p n (cut tail h) =
    run-IsCut nil [] nil start h p refl (closes-last_of_cons start s c)
    ∙ unfold close_onto in rw (emplace_all-nil (cons s c)) refl
run-IsFile (cons s c) ts p n (one_more tail e) =
    ap (run (initial_state nil)) e
    ∙ run-row nil [] nil start (mark end_block ∷ mark eof ∷ tail) p refl
    ∙ rw (emplace_all-nil (cons s c)) (
        run-next end_block [] _ _ _ (
          on_end_block_root [] nil (last_of start (cons s c)) (cons s c)
            (closes-last_of_cons start s c))
        ∙ unfold run on_token out_config in refl)

pub parse-IsFile :
    (input : Bytes) (c : NginxConfig)
    → IsPrintable c
    → c ≢ nil
    → IsFile c (visible (lexemes (suc (length input)) input))
    → parse input nil ≡ returned true c
unfolding parse
parse-IsFile input c p n h =
    let ts = lexemes (suc (length input)) input in
    parse_loop-run (suc (length input)) (initial_state nil) input
    ∙ run-visible ts (initial_state nil)
    ∙ run-IsFile c (visible ts) p n h
