-- ===== src/Config/Described.antt =====
-- How a `main` that wants a configuration file ends, for any arguments and any files, by the description
-- of the parser.
use cs_3_boost_echo_static_s.Base.{
  suc, ◌≡◌, ◌≢◌, refl, ◌∙◌, ap, true, false, Option, none, some, List, [], ◌∷◌, Bytes, length,
}
use cs_3_boost_echo_static_s.Config.{NginxConfig, nil}
use cs_3_boost_echo_static_s.Config.Interface.{
  Started, usage, refused, undefined, unfinished, started_parsed, started, nginx_config_parser,
  parse_file-some, parse_file-none,
}
use cs_3_boost_echo_static_s.Config.Parser.{
  ParseResult, returned, undefined_behaviour, out_of_fuel, parse_file,
}
use cs_3_boost_echo_static_s.Config.Parser.Rounds.{parse-ne-out_of_fuel}
use cs_3_boost_echo_static_s.Config.Reader.{read_file}
use cs_3_boost_echo_static_s.Config.Reader.Refines.{parse-read_file}
use cs_3_boost_echo_static_s.Config.Scanner.{lexemes}

-- A file that cannot be opened is refused.
abbrev pub read_opened : Option Bytes → ParseResult
read_opened none = returned false nil
read_opened (some input) = read_file (lexemes (suc (length input)) input)

read_opened-ne-out_of_fuel : (o : Option Bytes) → read_opened o ≢ out_of_fuel
read_opened-ne-out_of_fuel none = cc
read_opened-ne-out_of_fuel (some input) =
    rw (parse-read_file input) at (parse-ne-out_of_fuel input nil)

module _ (files : Bytes → Option Bytes) (name : Bytes) where
  pub parse_file-read_opened : parse_file files name nil ≡ read_opened (files name)
  parse_file-read_opened = by_file (files name) refl
    where
      by_file : (o : Option Bytes) → files name ≡ o → parse_file files name nil ≡ read_opened o
      by_file none e = parse_file-none files name nil e
      by_file (some input) e = parse_file-some files name input nil e ∙ parse-read_file input

module _ {A : Type 0} where
  -- What becomes of the configuration that is read, by `go` if it is accepted.
  abbrev pub accepted_text : (NginxConfig → Started A) → ParseResult → Started A
  accepted_text go (returned true c) = go c
  accepted_text go (returned false c) = refused
  accepted_text go undefined_behaviour = undefined
  accepted_text go out_of_fuel = unfinished

  -- The arguments begin with the name of the program.
  abbrev pub accepted_run :
      (NginxConfig → Started A) → (Bytes → Option Bytes) → List Bytes → Started A
  accepted_run go files (program ∷ name ∷ []) = accepted_text go (read_opened (files name))
  accepted_run go files _ = usage

  module _ (go go' : NginxConfig → Started A) (same : (c : NginxConfig) → go c ≡ go' c) where
    started_parsed-accepted_text : (r : ParseResult) → started_parsed go r ≡ accepted_text go' r
    started_parsed-accepted_text (returned true c) = same c
    started_parsed-accepted_text (returned false c) = refl
    started_parsed-accepted_text undefined_behaviour = refl
    started_parsed-accepted_text out_of_fuel = refl

    -- A `main` that starts with a configuration ends as is described, also where what it does with the
    -- configuration is described by another function.
    pub started-accepted_run :
        (files : Bytes → Option Bytes) (args : List Bytes)
        → started nginx_config_parser files go args ≡ accepted_run go' files args
    unfolding nginx_config_parser
    started-accepted_run files [] = refl
    started-accepted_run files (program ∷ []) = refl
    started-accepted_run files (program ∷ name ∷ []) =
        ap (started_parsed go) (parse_file-read_opened files name)
        ∙ started_parsed-accepted_text (read_opened (files name))
    started-accepted_run files (program ∷ name ∷ other ∷ more) = refl

  module _ (go : NginxConfig → Started A) (ends : (c : NginxConfig) → go c ≢ unfinished) where
    accepted_text-ne-unfinished :
        (r : ParseResult) → r ≢ out_of_fuel → accepted_text go r ≢ unfinished
    accepted_text-ne-unfinished (returned true c) h = ends c
    accepted_text-ne-unfinished (returned false c) h = cc
    accepted_text-ne-unfinished undefined_behaviour h = cc
    accepted_text-ne-unfinished out_of_fuel h = absurd (h refl)

    -- The fuel of the parser is never used up.
    pub accepted_run-ne-unfinished :
        (files : Bytes → Option Bytes) (args : List Bytes) → accepted_run go files args ≢ unfinished
    accepted_run-ne-unfinished files [] = cc
    accepted_run-ne-unfinished files (program ∷ []) = cc
    accepted_run-ne-unfinished files (program ∷ name ∷ []) =
        accepted_text-ne-unfinished (read_opened (files name))
          (read_opened-ne-out_of_fuel (files name))
    accepted_run-ne-unfinished files (program ∷ name ∷ other ∷ more) = cc
