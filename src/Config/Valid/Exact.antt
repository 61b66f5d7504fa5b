-- ===== src/Config/Valid/Exact.antt =====
-- Exactly what `Parse` accepts.
use cs_3_boost_echo_static_s.Base.{suc, ◌≡◌, ◌≢◌, ◌↔◌, sym, ◌∙◌, true, Bytes, length}
use cs_3_boost_echo_static_s.Config.{NginxConfig, nil}
use cs_3_boost_echo_static_s.Config.Parser.{returned, parse}
use cs_3_boost_echo_static_s.Config.Parser.Sound.{parse-IsPrintable}
use cs_3_boost_echo_static_s.Config.Printable.{IsPrintable}
use cs_3_boost_echo_static_s.Config.Reader.Refines.{parse-read_file}
use cs_3_boost_echo_static_s.Config.Scanner.{lexemes}
use cs_3_boost_echo_static_s.Config.Valid.{visible, IsFile}
use cs_3_boost_echo_static_s.Config.Valid.Accepted.{read_file-IsFile}
use cs_3_boost_echo_static_s.Config.Valid.Accepts.{parse-IsFile}

-- `Parse` accepts a file and gives a configuration exactly if the configuration can be printed and is not
-- empty, and the tokens of the file, without the comments, are those that it is written as, up to the
-- end of the file: where closing braces of the blocks that are open at the end may be left out, or one brace
-- may be too many.
pub parse-returned_iff :
    (input : Bytes) (c : NginxConfig)
    → (parse input nil ≡ returned true c)
      ↔ (IsPrintable c × (c ≢ nil) × IsFile c (visible (lexemes (suc (length input)) input)))
parse-returned_iff input c = (
  λ h.
      let (p, n) = parse-IsPrintable input h in
      (
        p,
        n,
        read_file-IsFile (lexemes (suc (length input)) input) c (sym (parse-read_file input) ∙ h),
      ),
  λ (p, n, f). parse-IsFile input c p n f,
)
