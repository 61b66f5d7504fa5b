-- ===== src/Config/Valid/Visible.antt =====
-- The loop of `Parse` does not look at comments, nor at the texts of marks.
use cs_3_boost_echo_static_s.Base.{◌≡◌, refl, ◌∙◌, inl, inr, List, [], ◌∷◌, Bytes}
use cs_3_boost_echo_static_s.Config.Lexer.{
  TokenType, start, normal, start_block, end_block, comment, statement_end, eof, error,
}
use cs_3_boost_echo_static_s.Config.Parser.{ParserState, on_token}
use cs_3_boost_echo_static_s.Config.Parser.Rounds.{Progress-cases}
use cs_3_boost_echo_static_s.Config.Reader.Run.{run, run-next}
use cs_3_boost_echo_static_s.Config.Scanner.{Lexeme}
use cs_3_boost_echo_static_s.Config.Valid.{mark, visible}

run-eq :
    (t : TokenType) (v : Bytes) (p : ParserState) (ts us : List Lexeme)
    → on_token t v p ≡ on_token t [] p
    → ((q : ParserState) → run q ts ≡ run q us)
    → run p ((t, v) ∷ ts) ≡ run p (mark t ∷ us)
unfolding run
run-eq t v p ts us e k = elim (Progress-cases (on_token t [] p)) [
  | inl (q, f) ↦ rw (e, f, run) (k q)
  | inr (inl f) ↦ rw (e, f, run) refl
  | inr (inr (inl f)) ↦ rw (e, f, run) refl
  | inr (inr (inr f)) ↦ rw (e, f, run) refl
]

run-word :
    (v : Bytes) (p : ParserState) (ts us : List Lexeme)
    → ((q : ParserState) → run q ts ≡ run q us)
    → run p ((normal, v) ∷ ts) ≡ run p ((normal, v) ∷ us)
unfolding run
run-word v p ts us k = elim (Progress-cases (on_token normal v p)) [
  | inl (q, f) ↦ rw (f, run) (k q)
  | inr (inl f) ↦ rw (f, run) refl
  | inr (inr (inl f)) ↦ rw (f, run) refl
  | inr (inr (inr f)) ↦ rw (f, run) refl
]

pub run-visible : (ts : List Lexeme) (p : ParserState) → run p ts ≡ run p (visible ts)
unfolding visible on_token
run-visible [] p = refl
run-visible ((comment, v) ∷ ts) p = run-next comment v p ts p refl ∙ run-visible ts p
run-visible ((normal, v) ∷ ts) p = run-word v p ts (visible ts) (run-visible ts)
run-visible ((start, v) ∷ ts) p = run-eq start v p ts (visible ts) refl (run-visible ts)
run-visible ((start_block, v) ∷ ts) p = run-eq start_block v p ts (visible ts) refl (run-visible ts)
run-visible ((end_block, v) ∷ ts) p = run-eq end_block v p ts (visible ts) refl (run-visible ts)
run-visible ((statement_end, v) ∷ ts) p =
    run-eq statement_end v p ts (visible ts) refl (run-visible ts)
run-visible ((eof, v) ∷ ts) p = run-eq eof v p ts (visible ts) refl (run-visible ts)
run-visible ((error, v) ∷ ts) p = run-eq error v p ts (visible ts) refl (run-visible ts)
