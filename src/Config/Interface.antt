-- ===== src/Config/Interface.antt =====
-- The class `NginxConfigParser` of config_parser.h as its clients see it, and the `main` functions that
-- use it.
use cs_3_boost_echo_static_s.Base.{
  ◌≡◌, ◌≢◌, refl, true, false, Option, none, some, List, [], ◌∷◌, Bytes,
}
use cs_3_boost_echo_static_s.Config.{NginxConfig, nil, cons, NginxConfigStatement}
use cs_3_boost_echo_static_s.Config.Parser.{
  ParseResult, returned, undefined_behaviour, out_of_fuel, parse, parse_file,
}
use cs_3_boost_echo_static_s.Config.Parser.Rounds.{parse-ne-out_of_fuel}
use cs_3_boost_echo_static_s.Config.Parser.Sound.{parse-IsPrintable}
use cs_3_boost_echo_static_s.Config.Print.{config_to_string}
use cs_3_boost_echo_static_s.Config.Printable.{IsPrintable}
use cs_3_boost_echo_static_s.Config.RoundTrip.Whole.{parse-config_to_string}

-- The two public functions, and what a client may rely on.
pub record ConfigParser : Type 0 where
  pub parse_stream : Bytes → NginxConfig → ParseResult
  pub parse_named : (Bytes → Option Bytes) → Bytes → NginxConfig → ParseResult
  pub printed :
      (s : NginxConfigStatement) (c : NginxConfig)
      → IsPrintable (cons s c)
      → parse_stream (config_to_string (cons s c) 0) nil ≡ returned true (cons s c)
  pub accepted :
      (input : Bytes) (c : NginxConfig)
      → parse_stream input nil ≡ returned true c
      → IsPrintable c × (c ≢ nil)
  pub returns : (input : Bytes) (c : NginxConfig) → parse_stream input c ≢ out_of_fuel
  pub opened :
      (files : Bytes → Option Bytes) (name input : Bytes) (c : NginxConfig)
      → files name ≡ some input
      → parse_named files name c ≡ parse_stream input c
  pub missing :
      (files : Bytes → Option Bytes) (name : Bytes) (c : NginxConfig)
      → files name ≡ none
      → parse_named files name c ≡ returned false c

pub parse_file-some :
    (files : Bytes → Option Bytes) (name input : Bytes) (c : NginxConfig)
    → files name ≡ some input
    → parse_file files name c ≡ parse input c
unfolding parse_file
parse_file-some files name input c h = rw (h, parse_file) refl

pub parse_file-none :
    (files : Bytes → Option Bytes) (name : Bytes) (c : NginxConfig)
    → files name ≡ none
    → parse_file files name c ≡ returned false c
unfolding parse_file
parse_file-none files name c h = rw (h, parse_file) refl

-- The parser of config_parser.cc keeps what the class promises.
unfoldable pub nginx_config_parser : ConfigParser
nginx_config_parser = record {
  parse_stream = parse;
  parse_named = parse_file;
  printed = parse-config_to_string;
  accepted = λ input c h. parse-IsPrintable input h;
  returns = parse-ne-out_of_fuel;
  opened = parse_file-some;
  missing = parse_file-none;
}

-- How a `main` that wants a configuration file ends: with the returned 1 or -1, or in what it does
-- with the configuration; or in undefined behaviour, or in a run of the model that is too short.
pub data Started (A : Type 0) : Type 0 where
  usage : Started A
  refused : Started A
  serving : A → Started A
  undefined : Started A
  unfinished : Started A

module _ {A : Type 0} where
  abbrev pub started_parsed : (NginxConfig → Started A) → ParseResult → Started A
  started_parsed go (returned true config) = go config
  started_parsed go (returned false config) = refused
  started_parsed go undefined_behaviour = undefined
  started_parsed go out_of_fuel = unfinished

  -- The arguments begin with the name of the program.
  abbrev pub started :
      ConfigParser → (Bytes → Option Bytes) → (NginxConfig → Started A) → List Bytes → Started A
  started parser files go (program ∷ name ∷ []) =
      started_parsed go (parser.parse_named files name nil)
  started parser files go _ = usage

  module _ (parser : ConfigParser) (files : Bytes → Option Bytes) (go : NginxConfig → Started A)
      (program name : Bytes) where
    -- A file with a printed configuration is read as that configuration.
    pub started-printed :
        (s : NginxConfigStatement) (c : NginxConfig)
        → IsPrintable (cons s c)
        → files name ≡ some (config_to_string (cons s c) 0)
        → started parser files go (program ∷ name ∷ []) ≡ go (cons s c)
    started-printed s c p o = rw (parser.opened files name _ nil o, parser.printed s c p) refl

    pub started-missing :
        files name ≡ none → started parser files go (program ∷ name ∷ []) ≡ refused
    started-missing o = rw (parser.missing files name nil o) refl
