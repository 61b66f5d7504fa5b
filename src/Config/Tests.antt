-- ===== src/Config/Tests.antt =====
-- Runs of the configuration parser on the strings and files of its tests, and concrete cases of its
-- theorems.
use cs_3_boost_echo_static_s.Config.Valid.{
  visible, IsFile, cut, inside, later, ends, words_row, row, row_statement,
}
use cs_3_boost_echo_static_s.Config.Valid.Exact.{parse-returned_iff}
use cs_3_boost_echo_static_s.Config.Scanner.{next_token, lexemes, split_quoted}
use cs_3_boost_echo_static_s.Config.Scanner.Refines.{parse_token-next_token}
use cs_3_boost_echo_static_s.Config.Reader.{read_file}
use cs_3_boost_echo_static_s.Config.Reader.Refines.{parse-read_file}
use cs_3_boost_echo_static_s.Config.Judge.{judge, kinds, accepts, stuck, refuses}
use cs_3_boost_echo_static_s.Config.Lexer.{error, eof, comment, start, parse_token}
use cs_3_boost_echo_static_s.Config.Tokens.{bare}
use cs_3_boost_echo_static_s.Config.Tokens.Reading.{token}
use cs_3_boost_echo_static_s.Config.Parser.Rounds.{parse-ne-out_of_fuel}
use cs_3_boost_echo_static_s.Config.Printable.{
  IsPrintable, none_left, and_then, IsStatement, plain, nested,
}
use cs_3_boost_echo_static_s.Config.RoundTrip.Whole.{parse-config_to_string}
use cs_3_boost_echo_static_s.Config.Unbalanced.{parse_extra_brace, parse_trailing_word}
use cs_3_boost_echo_static_s.Base.{
  ◌↔◌, split_at, ◌≡◌, ◌≢◌, refl, true, false, [], ◌∷◌, ◌++◌, List, Bytes, codes,
}
use cs_3_boost_echo_static_s.Config.{
  NginxConfig, nil, cons, NginxConfigStatement, statement, null, block,
}
use cs_3_boost_echo_static_s.Config.Parser.{returned, out_of_fuel, undefined_behaviour, parse}
use cs_3_boost_echo_static_s.Config.Print.{config_to_string, print_tokens, indent}

abbrev words : List Bytes → NginxConfigStatement
words ts = statement ts null

abbrev simple_config : NginxConfig
simple_config = cons (words (codes "foo" ∷ codes "bar" ∷ [])) nil

abbrev braces_config : NginxConfig
braces_config =
    cons (statement (codes "foo" ∷ []) (block (cons (words (codes "bar" ∷ [])) nil))) nil

simple_parses : parse (codes "foo bar;") nil ≡ returned true simple_config
unfolding parse
simple_parses = refl

braces_parse : parse (codes "foo { bar; }") nil ≡ returned true braces_config
unfolding parse
braces_parse = refl

braces_print : config_to_string braces_config 0 ≡ codes "foo {\n  bar;\n}\n"
unfolding config_to_string print_tokens indent
braces_print = refl

triple_parses :
    parse (codes "foo { barbaz; true { fun; } more;}}") nil
    ≡ returned true (
        cons
          (statement (codes "foo" ∷ []) (
            block (
              cons (words (codes "barbaz" ∷ [])) (
                cons
                  (statement (codes "true" ∷ []) (block (cons (words (codes "fun" ∷ [])) nil)))
                  (cons (words (codes "more" ∷ [])) nil)))))
          nil)
unfolding parse
triple_parses = refl

quotes_parse :
    parse (codes "a 'b\\'c' \"d\";#x\n") nil
    ≡ returned true (cons (words (codes "a" ∷ codes "'b\\'c'" ∷ codes "\"d\"" ∷ [])) nil)
unfolding parse
quotes_parse = refl

bad_parse : parse (codes "a ; }} b;") nil ≡ undefined_behaviour
unfolding parse
bad_parse = refl

empty_parse : parse (codes " ") nil ≡ returned false nil
unfolding parse
empty_parse = refl

bar-IsStatement : IsStatement (words (codes "bar" ∷ []))
bar-IsStatement = plain (bare refl refl, tt)

braces_config-IsPrintable : IsPrintable braces_config
braces_config-IsPrintable =
    and_then (nested (bare refl refl, tt) bar-IsStatement none_left) none_left

parse-config_to_string_example :
    parse (config_to_string braces_config 0) nil ≡ returned true braces_config
parse-config_to_string_example = parse-config_to_string _ nil braces_config-IsPrintable

parse-ne-out_of_fuel_example : parse (codes "foo { bar; }") nil ≢ out_of_fuel
parse-ne-out_of_fuel_example = parse-ne-out_of_fuel (codes "foo { bar; }") nil

parse_extra_brace_example :
    parse (config_to_string braces_config 0 ++ b'}' ∷ []) nil ≡ returned true braces_config
parse_extra_brace_example = parse_extra_brace _ nil braces_config-IsPrintable

parse_trailing_word_example :
    parse (config_to_string braces_config 0 ++ codes "word") nil ≡ returned true braces_config
parse_trailing_word_example =
    parse_trailing_word _ nil b'w' (codes "ord") braces_config-IsPrintable refl refl

judge_runs :
    (judge 1 start (kinds 7 (codes "a{b;}}")) ≡ accepts)
    × (judge 1 start (kinds 8 (codes "a{b;}}}")) ≡ stuck)
    × (judge 1 start (kinds 4 (codes "a{}")) ≡ refuses)
unfolding judge kinds parse_token
judge_runs = (refl, refl, refl)

parse_token-next_token_example :
    parse_token (codes " \"a\\\\\" b;") ≡ next_token (codes " \"a\\\\\" b;")
parse_token-next_token_example = parse_token-next_token (codes " \"a\\\\\" b;")

-- Two backslashes in front of a quote do not end a string.
next_token_runs :
    (next_token (codes " \"a\\\\\" b;") ≡ token error (codes "\"a\\\\\" b;") [])
    × (next_token (codes "# x\ny;") ≡ token comment (codes "# x") (codes "y;"))
    × (next_token (codes "word") ≡ token eof (codes "word") [])
unfolding next_token split_at split_quoted
next_token_runs = (refl, refl, refl)

parse-read_file_example : parse (codes "a{b c;}}") nil ≡ read_file (lexemes 9 (codes "a{b c;}}"))
parse-read_file_example = parse-read_file (codes "a{b c;}}")

-- A refused file leaves the part of the tree in front of the error.
read_file_runs :
    (read_file (lexemes 9 (codes "a{b c;}}"))
      ≡ returned true (
          cons
            (statement
              (codes "a" ∷ [])
              (block (cons (statement (codes "b" ∷ codes "c" ∷ []) null) nil)))
            nil))
    × (read_file (lexemes 6 (codes "a{b}"))
        ≡ returned false (
            cons
              (statement (codes "a" ∷ []) (block (cons (statement (codes "b" ∷ []) null) nil)))
              nil))
    × (read_file (lexemes 9 (codes "a{b;}}}")) ≡ undefined_behaviour)
unfolding read_file lexemes next_token split_at split_quoted
read_file_runs = (refl, refl, refl)

-- The last brace is missing, and there is a comment.
parse-returned_iff_example : (parse (codes "foo { bar;# x\n") nil ≡ returned true braces_config) ↔ (
    IsPrintable braces_config
    × (braces_config ≢ nil)
    × IsFile braces_config (visible (lexemes 15 (codes "foo { bar;# x\n"))))
parse-returned_iff_example = parse-returned_iff (codes "foo { bar;# x\n") braces_config

cut_row : IsFile braces_config (visible (lexemes 7 (codes "foo{bar;#")))
unfolding visible lexemes next_token split_at words_row row row_statement
cut_row = cut _ (inside _ (later _ ends))
