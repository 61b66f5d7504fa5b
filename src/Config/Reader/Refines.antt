-- ===== src/Config/Reader/Refines.antt =====
-- `Parse` builds what the recursive descent parser reads.
use cs_3_boost_echo_static_s.Base.{
  ℕ, zero, suc, ◌≤◌, ◌<◌, ◌≡◌, refl, ◌∙◌, Bool, true, false, List, [], ◌∷◌, ◌++◌, Bytes, some,
  arith, length,
}
use cs_3_boost_echo_static_s.Config.{NginxConfig, nil, NginxConfigStatement, statement, null, block}
use cs_3_boost_echo_static_s.Config.Frames.{
  emplace_back, reset_child, pop_config, close_onto, out_config,
}
use cs_3_boost_echo_static_s.Config.Lexer.{
  TokenType, start, normal, start_block, end_block, comment, statement_end, eof, error,
}
use cs_3_boost_echo_static_s.Config.Parser.{
  on_token, ParseResult, returned, out_of_fuel, initial_state, parse,
}
use cs_3_boost_echo_static_s.Config.Parser.Steps.{
  at, opens, closes, on_first_token, on_next_token, on_open, on_semicolon, update_back-emplace_back,
}
use cs_3_boost_echo_static_s.Config.RoundTrip.{emplace_all}
use cs_3_boost_echo_static_s.Config.RoundTrip.Whole.{emplace_all-nil}
use cs_3_boost_echo_static_s.Config.Scanner.{Lexeme, lexemes}
use cs_3_boost_echo_static_s.Config.Reader.{
  Read, closed, cut_off, wrong, short, put, nest, read_block, read_statement, behind_root, finish,
  read_file,
}
use cs_3_boost_echo_static_s.Config.Reader.Shorter.{Leaves, read_block-Leaves}
use cs_3_boost_echo_static_s.Config.Reader.Run.{
  run, parse_loop-run, run-nil, popped, run-next, run-wrong, run-finished, run-pop, end_block-pop,
  end_block-broken, eof-finished, eof-broken, start-broken, error-broken, comment-next,
  start_block-broken, statement_end-broken,
}

unfoldable resume : NginxConfig → List NginxConfig → NginxConfig → Read → ParseResult
resume top below root (closed c rest) =
    popped (pop_config (record { open_configs = emplace_all top c ∷ below; root = root })) rest
resume top below root (cut_off c) = returned true (close_onto (emplace_all top c) below)
resume top below root (wrong c) = returned false (close_onto (emplace_all top c) below)
resume top below root short = out_of_fuel

resume-put :
    (top : NginxConfig) (below : List NginxConfig) (root : NginxConfig) (s : NginxConfigStatement)
    (r : Read)
    → resume (emplace_back top s) below root r ≡ resume top below root (put s r)
unfolding resume
resume-put top below root s (closed c rest) = refl
resume-put top below root s (cut_off c) = refl
resume-put top below root s (wrong c) = refl
resume-put top below root s short = refl

-- A child block goes back to its owner.
module _ (top : NginxConfig) (below : List NginxConfig) (root : NginxConfig)
    (words : List Bytes) where
  abbrev pub owner : NginxConfig
  owner = emplace_back top (statement words (block nil))

  pub close_onto-owner :
      (c : NginxConfig)
      → close_onto c (owner ∷ below)
        ≡ close_onto (emplace_back top (statement words (block c))) below
  unfolding close_onto
  close_onto-owner c =
      rw
        (
          update_back-emplace_back (reset_child (block c)) top (statement words (block nil)),
          close_onto,
        )
        refl

  pop_config-owner :
      (c : NginxConfig)
      → pop_config (record { open_configs = c ∷ owner ∷ below; root = root })
        ≡ some (record {
          open_configs = emplace_back top (statement words (block c)) ∷ below;
          root = root;
        })
  unfolding pop_config
  pop_config-owner c =
      ground
        (arith, update_back-emplace_back (reset_child (block c)) top (statement words (block nil)))

  resume-nest :
      (n : ℕ) (go : List Lexeme → Read) (r : Read)
      → Leaves n r
      → ((c : NginxConfig) (ts : List Lexeme)
          → length ts ≤ n
          → run (at (emplace_back top (statement words (block c)) ∷ below) root end_block) ts
            ≡ resume (emplace_back top (statement words (block c))) below root (go ts))
      → resume nil (owner ∷ below) root r ≡ resume top below root (nest words go r)
  unfolding resume popped
  resume-nest n go (closed c rest) h k =
      rw (emplace_all-nil c, pop_config-owner c)
        (k c rest h ∙ resume-put top below root (statement words (block c)) (go rest))
  resume-nest n go (cut_off c) h k = rw (emplace_all-nil c, close_onto-owner c) refl
  resume-nest n go (wrong c) h k = rw (emplace_all-nil c, close_onto-owner c) refl
  resume-nest n go short h k = refl

mutual
  unfolding read_block read_statement resume

  block-run :
      (f : ℕ) (e : Bool) (ts : List Lexeme) (top : NginxConfig) (below : List NginxConfig)
      (root : NginxConfig) (last : TokenType)
      → length ts < f
      → opens last ≡ true
      → closes last ≡ e
      → run (at (top ∷ below) root last) ts ≡ resume top below root (read_block f e ts)
  block-run zero e ts top below root last h o c = absurd (omega arith)
  block-run (suc f) e [] top below root last h o c = run-nil _
  block-run (suc f) e ((normal, w) ∷ ts) top below root last h o c =
      run-next normal w _ ts _ (on_first_token top below root w last o)
      ∙ statement-run f (w ∷ []) ts top below root (omega arith)
  block-run (suc f) e ((comment, w) ∷ ts) top below root last h o c =
      run-next comment w _ ts _ (comment-next w _)
      ∙ block-run f e ts top below root last (omega arith) o c
  block-run (suc f) true ((end_block, w) ∷ ts) top below root last h o c =
      run-pop end_block w _ ts _ (end_block-pop w (at (top ∷ below) root last) c)
  block-run (suc f) false ((end_block, w) ∷ ts) top below root last h o c =
      run-wrong top below root last end_block w ts (end_block-broken w _ c)
  block-run (suc f) true ((eof, w) ∷ ts) top below root last h o c =
      run-finished top below root last eof w ts (eof-finished w _ c)
  block-run (suc f) false ((eof, w) ∷ ts) top below root last h o c =
      run-wrong top below root last eof w ts (eof-broken w _ c)
  block-run (suc f) e ((start, w) ∷ ts) top below root last h o c =
      run-wrong top below root last start w ts (start-broken w _)
  block-run (suc f) e ((start_block, w) ∷ ts) top below root last h o c =
      run-wrong top below root last start_block w ts (start_block-broken w _ o)
  block-run (suc f) e ((statement_end, w) ∷ ts) top below root last h o c =
      run-wrong top below root last statement_end w ts (statement_end-broken w _ o)
  block-run (suc f) e ((error, w) ∷ ts) top below root last h o c =
      run-wrong top below root last error w ts (error-broken w _)

  statement-run :
      (f : ℕ) (words : List Bytes) (ts : List Lexeme) (top : NginxConfig) (below : List NginxConfig)
      (root : NginxConfig)
      → length ts < f
      → run (at (emplace_back top (statement words null) ∷ below) root normal) ts
        ≡ resume top below root (read_statement f words ts)
  statement-run zero words ts top below root h = absurd (omega arith)
  statement-run (suc f) words [] top below root h = run-nil _
  statement-run (suc f) words ((normal, w) ∷ ts) top below root h =
      run-next normal w _ ts _ (on_next_token top below root w words null)
      ∙ statement-run f (words ++ w ∷ []) ts top below root (omega arith)
  statement-run (suc f) words ((comment, w) ∷ ts) top below root h =
      run-next comment w _ ts _ (comment-next w _)
      ∙ statement-run f words ts top below root (omega arith)
  statement-run (suc f) words ((statement_end, w) ∷ ts) top below root h =
      run-next statement_end w _ ts _ (on_semicolon _ below root w)
      ∙ block-run f true ts _ below root statement_end (omega arith) refl refl
      ∙ resume-put top below root (statement words null) (read_block f true ts)
  statement-run (suc f) words ((start_block, w) ∷ ts) top below root h =
      run-next start_block w _ ts _ (on_open top below root w words null)
      ∙ block-run f false ts nil _ root start_block (omega arith) refl refl
      ∙ resume-nest top below root words (length ts) (read_block f true) (read_block f false ts)
          (read_block-Leaves f false ts)
          (λ c rest k. block-run f true rest _ below root end_block (omega arith) refl refl)
  statement-run (suc f) words ((start, w) ∷ ts) top below root h =
      run-wrong _ below root normal start w ts (start-broken w _)
  statement-run (suc f) words ((end_block, w) ∷ ts) top below root h =
      run-wrong _ below root normal end_block w ts (end_block-broken w _ refl)
  statement-run (suc f) words ((eof, w) ∷ ts) top below root h =
      run-wrong _ below root normal eof w ts (eof-broken w _ refl)
  statement-run (suc f) words ((error, w) ∷ ts) top below root h =
      run-wrong _ below root normal error w ts (error-broken w _)

-- The root is popped.
run-behind_root :
    (root : NginxConfig) (ts : List Lexeme) → run (at [] root end_block) ts ≡ behind_root root ts
unfolding run behind_root on_token out_config
run-behind_root root [] = refl
run-behind_root root ((comment, w) ∷ ts) = run-behind_root root ts
run-behind_root root ((normal, w) ∷ ts) = refl
run-behind_root root ((start, w) ∷ ts) = refl
run-behind_root root ((start_block, w) ∷ ts) = refl
run-behind_root root ((statement_end, w) ∷ ts) = refl
run-behind_root root ((end_block, w) ∷ ts) = refl
run-behind_root root ((eof, w) ∷ ts) = refl
run-behind_root root ((error, w) ∷ ts) = refl

resume-finish : (root : NginxConfig) (r : Read) → resume nil [] root r ≡ finish r
unfolding resume popped pop_config close_onto
resume-finish root (closed c rest) = rw (emplace_all-nil c) (run-behind_root c rest)
resume-finish root (cut_off c) = rw (emplace_all-nil c) refl
resume-finish root (wrong c) = rw (emplace_all-nil c) refl
resume-finish root short = refl

-- What `Parse` gives on a fresh configuration, for every input: the answer together with the tree, also the
-- part of a tree that a refused file leaves, and undefined behaviour where it is. It depends on the row of
-- the tokens only, and is what the recursive descent parser reads from it.
pub parse-read_file :
    (input : Bytes) → parse input nil ≡ read_file (lexemes (suc (length input)) input)
unfolding parse read_file
parse-read_file input =
    let ts = lexemes (suc (length input)) input in
    parse_loop-run (suc (length input)) (initial_state nil) input
    ∙ block-run (suc (length ts)) false ts nil [] nil start (omega arith) refl refl
    ∙ resume-finish nil (read_block (suc (length ts)) false ts)
