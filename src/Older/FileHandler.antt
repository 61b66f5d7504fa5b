-- ===== src/Older/FileHandler.antt =====
-- The class `request_handler` that handlers.h declares, with the type of its requests. No file that is
-- compiled defines its members, so they are declared here only.
use cs_3_boost_echo_static_s.Base.{ℕ, Bool, Option, List, Bytes}
use cs_3_boost_echo_static_s.Older.Reply.{Header, Reply}

pub record Request : Type 0 where
  pub method : Bytes
  pub uri : Bytes
  pub http_version_major : ℕ
  pub http_version_minor : ℕ
  pub headers : List Header

-- An object that is made with a directory. `handle_request` gives the reply and the flag `isEcho` after
-- the call, and `url_decode` the string that it writes, or `none` where it returns false.
pub record FileHandler : Type 0 where
  pub doc_root : Bytes
  pub handle_request : Request → Reply → Bool → Reply × Bool
  pub url_decode : Bytes → Option Bytes
