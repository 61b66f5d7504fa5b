-- ===== src/Server/Session/Clients.antt =====
-- What a session gets from a handler, whichever it is.
use cs_3_boost_echo_static_s.Base.{
  ℕ, ◌≡◌, ◌≢◌, refl, inl, inr, Option, none, some, Option-cases, Bytes, codes,
}
use cs_3_boost_echo_static_s.Base.Dict.{Dict, lookup}
use cs_3_boost_echo_static_s.Handlers.{init_static, handle_static}
use cs_3_boost_echo_static_s.Handlers.Interface.{RequestHandler, static_handler}
use cs_3_boost_echo_static_s.Handlers.Replies.{IsReply}
use cs_3_boost_echo_static_s.Http.{HttpRequest, HttpResponse, empty_response}
use cs_3_boost_echo_static_s.Server.Session.{Dispatched, handled, unmatched, thrown, run_with}

handled-ne-unmatched : (r : HttpResponse) → handled r ≢ unmatched
handled-ne-unmatched r h = cc

thrown-ne-unmatched : thrown ≢ unmatched
thrown-ne-unmatched h = cc

-- What is left by the loop over the handlers, for each of its three ends.
abbrev pub Answered : (ℕ → Bytes) → Dispatched → Type 0
Answered lexical_cast (handled r) = IsReply lexical_cast r
Answered lexical_cast unmatched = Unit
Answered lexical_cast thrown = Unit

module _ (lexical_cast : ℕ → Bytes) (config_map : Dict) (req : HttpRequest) where
  module _ (handler : RequestHandler lexical_cast) where
    pub run_with-ne-unmatched :
        (rep : HttpResponse) → run_with lexical_cast handler config_map req rep ≢ unmatched
    run_with-ne-unmatched rep h = elim (Option-cases (handler.init config_map handler.fresh)) [
      | inl e ↦ thrown-ne-unmatched (rw (e, run_with) at h)
      | inr (s, e) ↦ handled-ne-unmatched _ (rw (e, run_with) at h)
    ]

    pub run_with-Answered :
        Answered lexical_cast (run_with lexical_cast handler config_map req empty_response)
    run_with-Answered = elim (Option-cases (handler.init config_map handler.fresh)) [
      | inl e ↦ rw (e, Answered, run_with) tt
      | inr (s, e) ↦ rw (e, Answered, run_with) (handler.replies s.0 req)
    ]

  module _ (open_file : Bytes → Option Bytes) (rep : HttpResponse) where
    pub run_with_static :
        (directory : Bytes)
        → lookup (codes "directory") config_map ≡ some directory
        → run_with lexical_cast (static_handler lexical_cast open_file) config_map req rep
          ≡ handled (handle_static lexical_cast open_file directory req rep).0
    unfolding init_static
    run_with_static directory h = rw (h, run_with, init_static) refl

    pub run_with_static-thrown :
        lookup (codes "directory") config_map ≡ none
        → run_with lexical_cast (static_handler lexical_cast open_file) config_map req rep ≡ thrown
    unfolding init_static
    run_with_static-thrown h = rw (h, run_with, init_static) refl
