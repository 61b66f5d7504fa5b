-- ===== src/Config/Unbalanced.antt =====
-- Texts that are no configurations, and that `Parse` accepts all the same.
use cs_3_boost_echo_static_s.Base.{
  ℕ, ◌≡◌, refl, ◌∙◌, ap, sym, true, List, [], ◌∷◌, ◌++◌, append-nil, Bytes, arith, all,
}
use cs_3_boost_echo_static_s.Config.{
  NginxConfig, nil, cons, NginxConfigStatement, statement, null, block,
}
use cs_3_boost_echo_static_s.Config.Frames.{emplace_back, out_config}
use cs_3_boost_echo_static_s.Config.Lexer.{
  TokenType, start, start_block, end_block, eof, in_normal, Locals, round_in, end_of_file, scan,
  initial, parse_token,
}
use cs_3_boost_echo_static_s.Config.Parser.{next, on_token, returned, undefined_behaviour, parse}
use cs_3_boost_echo_static_s.Config.Parser.Rounds.{
  parse_from, parse-parse_from, parse_from-undefined,
}
use cs_3_boost_echo_static_s.Config.Parser.Steps.{at, closes, on_open}
use cs_3_boost_echo_static_s.Config.Print.{config_to_string, print_tokens}
use cs_3_boost_echo_static_s.Config.Printable.{IsPrintable, IsTokens}
use cs_3_boost_echo_static_s.Config.RoundTrip.{last_of}
use cs_3_boost_echo_static_s.Config.RoundTrip.Pieces.{
  skip_blank, read_open_brace, read_close_brace, read_tokens,
}
use cs_3_boost_echo_static_s.Config.RoundTrip.Whole.{
  parse-printed, parse_from_end, closes-last_of_cons, emplace_all-nil, read_config,
}
use cs_3_boost_echo_static_s.Config.Tokens.{is_bare, starts_bare}

on_end_block_root :
    (v : Bytes) (c : NginxConfig) (root : NginxConfig) (last : TokenType)
    → closes last ≡ true
    → on_token end_block v (at (c ∷ []) root last) ≡ next (at [] c end_block)
unfolding on_token
on_end_block_root v c root last h = ground arith

-- One closing brace too many behind a printed configuration that is not empty is accepted.
pub parse_extra_brace :
    (s : NginxConfigStatement) (c : NginxConfig)
    → IsPrintable (cons s c)
    → parse (config_to_string (cons s c) 0 ++ b'}' ∷ []) nil ≡ returned true (cons s c)
unfolding parse_token out_config
parse_extra_brace s c h =
    let last = last_of start (cons s c) in
    parse-printed s c (b'}' ∷ []) h
    ∙ read_close_brace _ _ []
        (on_end_block_root (b'}' ∷ []) (cons s c) nil last (closes-last_of_cons start s c))
    ∙ parse_from_end [] (cons s c) end_block [] refl refl

popped_twice :
    (root : NginxConfig) (rest : Bytes)
    → parse_from (at [] root end_block) (b'}' ∷ rest) ≡ undefined_behaviour
unfolding parse_token scan round_in on_token
popped_twice root rest = parse_from-undefined _ (b'}' ∷ rest) refl

-- Behind a printed configuration that is not empty and two closing braces, the behaviour is
-- undefined, whatever follows.
pub parse_two_extra_braces :
    (s : NginxConfigStatement) (c : NginxConfig) (rest : Bytes)
    → IsPrintable (cons s c)
    → parse (config_to_string (cons s c) 0 ++ b'}' ∷ b'}' ∷ rest) nil ≡ undefined_behaviour
parse_two_extra_braces s c rest h =
    let last = last_of start (cons s c) in
    parse-printed s c (b'}' ∷ b'}' ∷ rest) h
    ∙ read_close_brace _ _ (b'}' ∷ rest)
        (on_end_block_root (b'}' ∷ []) (cons s c) nil last (closes-last_of_cons start s c))
    ∙ popped_twice (cons s c) rest

-- The tokens of a statement, an opening brace and a printed configuration that is not empty are
-- accepted without the closing brace, as if the block were closed.
pub parse_missing_brace :
    (ts : List Bytes) (s : NginxConfigStatement) (c : NginxConfig)
    → IsTokens ts
    → IsPrintable (cons s c)
    → parse (print_tokens true ts ++ (b' ' ∷ b'{' ∷ config_to_string (cons s c) 0)) nil
      ≡ returned true (cons (statement ts (block (cons s c))) nil)
unfolding parse_token out_config emplace_back
parse_missing_brace ts s c h hc =
    let owner = cons (statement ts (block nil)) nil in
    let text = config_to_string (cons s c) 0 in
    parse-parse_from _ nil
    ∙ read_tokens nil [] nil ts start (b' ' ∷ b'{' ∷ text) h refl refl
    ∙ skip_blank _ b' ' _ refl
    ∙ read_open_brace _ _ _ (on_open nil [] nil (b'{' ∷ []) ts null)
    ∙ ap (parse_from (at (nil ∷ owner ∷ []) nil start_block)) (sym (append-nil text))
    ∙ read_config nil (owner ∷ []) nil start_block 0 [] hc refl
    ∙ rw (emplace_all-nil (cons s c))
        (parse_from_end (cons s c ∷ owner ∷ []) nil _ [] (closes-last_of_cons start_block s c) refl)

scan-bare_to_end :
    (cs : Bytes) (l : Locals) → l.state ≡ in_normal → all is_bare cs ≡ true → (scan l cs).type ≡ eof
unfolding scan round_in end_of_file
scan-bare_to_end [] l s h = rw s
scan-bare_to_end (c ∷ cs) l s h =
    ground (arith, scan-bare_to_end cs (record l { value = l.value ++ c ∷ [] }) s)

-- A word behind a printed configuration that is not empty, with no semicolon, is accepted and
-- dropped.
pub parse_trailing_word :
    (s : NginxConfigStatement) (c : NginxConfig) (d : ℕ) (cs : Bytes)
    → IsPrintable (cons s c)
    → starts_bare d ≡ true
    → all is_bare cs ≡ true
    → parse (config_to_string (cons s c) 0 ++ (d ∷ cs)) nil ≡ returned true (cons s c)
unfolding parse_token out_config round_in
parse_trailing_word s c d cs h hd hs =
    parse-printed s c (d ∷ cs) h
    ∙ parse_from_end (cons s c ∷ []) nil _ (d ∷ cs) (closes-last_of_cons start s c) (
        ground (
          arith,
          scan-bare_to_end cs (record initial { state = in_normal; value = d ∷ [] }) refl hs,
        ))
