-- ===== src/Config/RoundTrip/Reparse.antt =====
-- Printing what was parsed, and parsing it again.
use cs_3_boost_echo_static_s.Base.{◌≡◌, ◌≢◌, refl, true, Bytes}
use cs_3_boost_echo_static_s.Config.{NginxConfig, nil, cons}
use cs_3_boost_echo_static_s.Config.Parser.{returned, parse}
use cs_3_boost_echo_static_s.Config.Parser.Sound.{parse-IsPrintable}
use cs_3_boost_echo_static_s.Config.Print.{config_to_string}
use cs_3_boost_echo_static_s.Config.Printable.{IsPrintable}
use cs_3_boost_echo_static_s.Config.RoundTrip.Whole.{parse-config_to_string}

reparse :
    (c : NginxConfig) → IsPrintable c → c ≢ nil → parse (config_to_string c 0) nil ≡ returned true c
reparse nil h n = absurd (n refl)
reparse (cons s c) h n = parse-config_to_string s c h

-- If `Parse` accepts a text, it accepts what `ToString` writes for the resulting configuration, and
-- gives the same configuration.
pub parse-config_to_string-parse :
    (input : Bytes) {c : NginxConfig}
    → parse input nil ≡ returned true c
    → parse (config_to_string c 0) nil ≡ returned true c
parse-config_to_string-parse input {c} h = let (p, n) = parse-IsPrintable input h in reparse c p n
