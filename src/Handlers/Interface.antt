-- ===== src/Handlers/Interface.antt =====
-- The class `RequestHandler` of request_handler.h, and the three classes that derive from it.
use cs_3_boost_echo_static_s.Base.{ℕ, Bool, Option, some, [], Bytes}
use cs_3_boost_echo_static_s.Base.Dict.{Dict}
use cs_3_boost_echo_static_s.Handlers.{
  init_echo, init_not_found, init_static, handle_echo, handle_not_found, handle_static,
}
use cs_3_boost_echo_static_s.Handlers.Replies.{
  IsReply, handle_echo-IsReply, handle_not_found-IsReply, handle_static-IsReply,
}
use cs_3_boost_echo_static_s.Http.{HttpRequest, HttpResponse, empty_response}

module _ (lexical_cast : ℕ → Bytes) where
  -- An object with its members, the two virtual functions, and what a server may rely on: the response
  -- made from a fresh one is a reply. `none` is an exception of `Init`.
  pub record RequestHandler : Type 1 where
    pub State : Type 0
    pub fresh : State
    pub init : Dict → State → Option (State × Bool)
    pub handle_request : State → HttpRequest → HttpResponse → HttpResponse × Bool
    pub replies :
        (state : State) (request : HttpRequest)
        → IsReply lexical_cast (handle_request state request empty_response).0

  abbrev pub echo_handler : RequestHandler
  echo_handler = record {
    State = Unit {0};
    fresh = tt;
    init = λ config_map state. some (state, init_echo config_map);
    handle_request = λ state. handle_echo lexical_cast;
    replies = λ state. handle_echo-IsReply lexical_cast;
  }

  abbrev pub not_found_handler : RequestHandler
  not_found_handler = record {
    State = Unit {0};
    fresh = tt;
    init = λ config_map state. some (state, init_not_found config_map);
    handle_request = λ state. handle_not_found lexical_cast;
    replies = λ state. handle_not_found-IsReply lexical_cast;
  }

  -- The member `directory` is the state; it hides the global variable of that name in StaticHandler.cc,
  -- which nothing uses.
  abbrev pub static_handler : (Bytes → Option Bytes) → RequestHandler
  static_handler open_file = record {
    State = Bytes;
    fresh = [];
    init = λ config_map directory. init_static config_map;
    handle_request = handle_static lexical_cast open_file;
    replies = handle_static-IsReply lexical_cast open_file;
  }
