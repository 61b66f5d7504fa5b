-- ===== src/Older/Printer.antt =====
-- config_parser_main.cc: a program that prints the configuration of a file.
use cs_3_boost_echo_static_s.Base.{◌≡◌, refl, ◌∙◌, ap, Option, List, [], ◌∷◌, Bytes}
use cs_3_boost_echo_static_s.Base.Search.{c_str}
use cs_3_boost_echo_static_s.Config.{nil}
use cs_3_boost_echo_static_s.Config.Described.{read_opened, parse_file-read_opened}
use cs_3_boost_echo_static_s.Config.Interface.{
  nginx_config_parser, ConfigParser, Started, usage, serving, undefined, unfinished,
}
use cs_3_boost_echo_static_s.Config.Parser.{ParseResult, returned, undefined_behaviour, out_of_fuel}
use cs_3_boost_echo_static_s.Config.Print.{config_to_string}

-- The answer of the parser is dropped: what is printed is the configuration at its end, as a C string.
print_parsed : ParseResult → Started Bytes
print_parsed (returned _ config) = serving (c_str (config_to_string config 0))
print_parsed undefined_behaviour = undefined
print_parsed out_of_fuel = unfinished

-- What `main` prints.
unfoldable pub print_file : ConfigParser → (Bytes → Option Bytes) → List Bytes → Started Bytes
unfolding print_parsed
print_file parser open_file (program ∷ name ∷ []) =
    print_parsed (parser.parse_named open_file name nil)
print_file parser open_file _ = usage

-- What is printed for the configuration that the parser leaves, also where it refuses the file: its text
-- up to the first zero byte.
abbrev pub printed_text : ParseResult → Started Bytes
printed_text (returned accepted c) = serving (c_str (config_to_string c 0))
printed_text undefined_behaviour = undefined
printed_text out_of_fuel = unfinished

abbrev pub printed_run : (Bytes → Option Bytes) → List Bytes → Started Bytes
printed_run files (program ∷ name ∷ []) = printed_text (read_opened (files name))
printed_run files _ = usage

print_parsed-printed_text : (r : ParseResult) → print_parsed r ≡ printed_text r
unfolding print_parsed
print_parsed-printed_text (returned accepted c) = refl
print_parsed-printed_text undefined_behaviour = refl
print_parsed-printed_text out_of_fuel = refl

-- The program, for all arguments and all files: with exactly one file name it prints what is read in front
-- of the first error of the file, up to the first zero byte of its text, or nothing if the file cannot be
-- opened; it is undefined where the parser is. With other arguments it prints how it is used.
pub print_file-printed_run :
    (files : Bytes → Option Bytes) (args : List Bytes)
    → print_file nginx_config_parser files args ≡ printed_run files args
unfolding print_file nginx_config_parser
print_file-printed_run files [] = refl
print_file-printed_run files (program ∷ []) = refl
print_file-printed_run files (program ∷ name ∷ []) =
    ap print_parsed (parse_file-read_opened files name)
    ∙ print_parsed-printed_text (read_opened (files name))
print_file-printed_run files (program ∷ name ∷ other ∷ more) = refl
