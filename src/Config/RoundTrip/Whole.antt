-- ===== src/Config/RoundTrip/Whole.antt =====
-- Whole statements and configurations.
use cs_3_boost_echo_static_s.Base.{
  ℕ, ◌≡◌, refl, ◌∙◌, ap, sym, true, ◌+◌, List, [], ◌∷◌, ◌++◌, append-nil, append_assoc, Bytes,
}
use cs_3_boost_echo_static_s.Config.{
  NginxConfig, nil, cons, NginxConfigStatement, statement, null, block,
}
use cs_3_boost_echo_static_s.Config.Frames.{emplace_back, out_config}
use cs_3_boost_echo_static_s.Config.Lexer.{TokenType, start, start_block, eof, parse_token}
use cs_3_boost_echo_static_s.Config.Parser.{returned, parse}
use cs_3_boost_echo_static_s.Config.Parser.Rounds.{
  parse_from, parse_from-finished, parse-parse_from,
}
use cs_3_boost_echo_static_s.Config.Parser.Steps.{
  at, on_eof, opens, closes, on_open, on_close, on_semicolon,
}
use cs_3_boost_echo_static_s.Config.Print.{config_to_string, statement_to_string, indent}
use cs_3_boost_echo_static_s.Config.Printable.{
  IsPrintable, none_left, and_then, IsStatement, plain, nested,
}
use cs_3_boost_echo_static_s.Config.RoundTrip.{emplace_all, last_of, last_of_statement}
use cs_3_boost_echo_static_s.Config.RoundTrip.Pieces.{
  skip_blank, skip_indent, read_semicolon, read_open_brace, read_close_brace, read_tokens,
}

emplace_all-cons :
    (top : NginxConfig) (s : NginxConfigStatement) (c : NginxConfig)
    → emplace_all (cons s top) c ≡ cons s (emplace_all top c)
unfolding emplace_back
emplace_all-cons top s nil = refl
emplace_all-cons top s (cons r c) = emplace_all-cons (emplace_back top r) s c

pub emplace_all-nil : (c : NginxConfig) → emplace_all nil c ≡ c
unfolding emplace_back
emplace_all-nil nil = refl
emplace_all-nil (cons s c) = emplace_all-cons nil s c ∙ ap (cons s) (emplace_all-nil c)

pub opens-last_of_statement : (s : NginxConfigStatement) → opens (last_of_statement s) ≡ true
opens-last_of_statement (statement ts null) = refl
opens-last_of_statement (statement ts (block c)) = refl

pub closes-last_of_statement : (s : NginxConfigStatement) → closes (last_of_statement s) ≡ true
closes-last_of_statement (statement ts null) = refl
closes-last_of_statement (statement ts (block c)) = refl

pub closes-last_of :
    (last : TokenType) (c : NginxConfig) → closes last ≡ true → closes (last_of last c) ≡ true
closes-last_of last nil h = h
closes-last_of last (cons s c) h =
    closes-last_of (last_of_statement s) c (closes-last_of_statement s)

pub emplace_all-cons-nil :
    (s : NginxConfigStatement) (c : NginxConfig) → emplace_all (cons s nil) c ≡ cons s c
emplace_all-cons-nil s c = emplace_all-cons nil s c ∙ ap (cons s) (emplace_all-nil c)

mutual
  unfolding config_to_string emplace_back

  pub read_config :
      {c : NginxConfig} (top : NginxConfig) (below : List NginxConfig) (root : NginxConfig)
      (last : TokenType) (depth : ℕ) (rest : Bytes)
      → IsPrintable c
      → opens last ≡ true
      → parse_from (at (top ∷ below) root last) (config_to_string c depth ++ rest)
        ≡ parse_from (at (emplace_all top c ∷ below) root (last_of last c)) rest
  read_config top below root last depth rest none_left o = refl
  read_config top below root last depth rest (and_then {s} {c} h hs) o = simp append_assoc (
      read_statement top below root last depth (config_to_string c depth ++ rest) h o
      ∙ read_config (emplace_back top s) below root (last_of_statement s) depth rest hs
          (opens-last_of_statement s))

  pub read_statement :
      {s : NginxConfigStatement} (top : NginxConfig) (below : List NginxConfig) (root : NginxConfig)
      (last : TokenType) (depth : ℕ) (rest : Bytes)
      → IsStatement s
      → opens last ≡ true
      → parse_from (at (top ∷ below) root last) (statement_to_string s depth ++ rest)
        ≡ parse_from (at (emplace_back top s ∷ below) root (last_of_statement s)) rest
  read_statement top below root last depth rest (plain {ts} h) o = simp append_assoc (
      skip_indent _ depth _
      ∙ read_tokens top below root ts last (b';' ∷ b'\n' ∷ rest) h o refl
      ∙ read_semicolon _ _ _ (on_semicolon _ below root (b';' ∷ []))
      ∙ skip_blank _ b'\n' rest refl)
  read_statement top below root last depth rest (nested {ts} {s} {c} h hs hc) o =
      let owner = emplace_back top (statement ts (block nil)) in
      let closed = indent depth ++ (b'}' ∷ b'\n' ∷ rest) in
      simp append_assoc (
        skip_indent _ depth _
        ∙ read_tokens top below root ts last _ h o refl
        ∙ skip_blank _ b' ' _ refl
        ∙ read_open_brace _ _ _ (on_open top below root (b'{' ∷ []) ts null)
        ∙ skip_blank _ b'\n' _ refl
        ∙ read_statement nil (owner ∷ below) root start_block (depth + 1)
            (config_to_string c (depth + 1) ++ closed) hs refl
        ∙ read_config (cons s nil) (owner ∷ below) root (last_of_statement s) (depth + 1) closed hc
            (opens-last_of_statement s)
        ∙ skip_indent _ depth _
        ∙ read_close_brace _ _ _ (
            on_close top below root (b'}' ∷ []) _ ts (block nil) _
              (closes-last_of (last_of_statement s) c (closes-last_of_statement s)))
        ∙ rw emplace_all-cons-nil (skip_blank _ b'\n' rest refl))

-- The parser behind the text of a printable configuration.
pub parse-printed :
    (s : NginxConfigStatement) (c : NginxConfig) (rest : Bytes)
    → IsPrintable (cons s c)
    → parse (config_to_string (cons s c) 0 ++ rest) nil
      ≡ parse_from (at (cons s c ∷ []) nil (last_of start (cons s c))) rest
parse-printed s c rest h =
    parse-parse_from _ nil
    ∙ read_config nil [] nil start 0 rest h refl
    ∙ rw (emplace_all-nil (cons s c))

pub closes-last_of_cons :
    (last : TokenType) (s : NginxConfigStatement) (c : NginxConfig)
    → closes (last_of last (cons s c)) ≡ true
closes-last_of_cons last s c = closes-last_of (last_of_statement s) c (closes-last_of_statement s)

-- The end of the stream behind a complete statement.
pub parse_from_end :
    (frames : List NginxConfig) (root : NginxConfig) (last : TokenType) (rest : Bytes)
    → closes last ≡ true
    → (parse_token rest).type ≡ eof
    → parse_from (at frames root last) rest
      ≡ returned true (out_config (record { open_configs = frames; root = root }))
parse_from_end frames root last rest h e =
    parse_from-finished (at frames root last) rest
      (rw e (on_eof (parse_token rest).value frames root last h))

-- What `ToString` writes for a printable configuration that is not empty is accepted by `Parse`,
-- and gives the configuration back.
pub parse-config_to_string :
    (s : NginxConfigStatement) (c : NginxConfig)
    → IsPrintable (cons s c)
    → parse (config_to_string (cons s c) 0) nil ≡ returned true (cons s c)
unfolding parse_token out_config
parse-config_to_string s c h =
    ap (λ t. parse t nil) (sym (append-nil (config_to_string (cons s c) 0)))
    ∙ parse-printed s c [] h
    ∙ parse_from_end (cons s c ∷ []) nil _ [] (closes-last_of_cons start s c) refl
