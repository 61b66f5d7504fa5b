-- ===== src/Config.antt =====
-- config_parser.h: the parsed representation of an nginx configuration. A vector of statements is
-- `nil` or `cons`; the pointer to the child block is `null` or a `block` of its own.
pub mod Print
pub mod Lexer
pub mod Tokens
pub mod Frames
pub mod Parser
pub mod Printable
pub mod RoundTrip
pub mod Unbalanced
pub mod Interface
pub mod Judge
pub mod Scanner
pub mod Reader
pub mod Described
pub mod Valid
mod Tests
use cs_3_boost_echo_static_s.Base.{List, Bytes}

mutual
  pub data NginxConfig : Type 0 where
    nil : NginxConfig
    cons : NginxConfigStatement → NginxConfig → NginxConfig

  pub data NginxConfigStatement : Type 0 where
    statement : List Bytes → ChildBlock → NginxConfigStatement

  pub data ChildBlock : Type 0 where
    null : ChildBlock
    block : NginxConfig → ChildBlock
