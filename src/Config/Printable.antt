-- ===== src/Config/Printable.antt =====
-- The configurations that `ToString` writes in a form that `Parse` accepts: each statement has a
-- token, each token can be read back, and no block is empty.
use cs_3_boost_echo_static_s.Base.{List, [], ◌∷◌, Bytes, All}
use cs_3_boost_echo_static_s.Config.{
  NginxConfig, nil, cons, NginxConfigStatement, statement, null, block,
}
use cs_3_boost_echo_static_s.Config.Tokens.{IsToken}

abbrev pub IsTokens : List Bytes → Type 0
IsTokens [] = ⊥
IsTokens (t ∷ ts) = IsToken t × All IsToken ts

mutual
  pub data IsPrintable : NginxConfig → Type 0 where
    none_left : IsPrintable nil
    and_then :
        {s : NginxConfigStatement} {c : NginxConfig}
        → IsStatement s
        → IsPrintable c
        → IsPrintable (cons s c)

  pub data IsStatement : NginxConfigStatement → Type 0 where
    plain : {ts : List Bytes} → IsTokens ts → IsStatement (statement ts null)
    nested :
        {ts : List Bytes} {s : NginxConfigStatement} {c : NginxConfig}
        → IsTokens ts
        → IsStatement s
        → IsPrintable c
        → IsStatement (statement ts (block (cons s c)))
