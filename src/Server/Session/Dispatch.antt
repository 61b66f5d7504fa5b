-- ===== src/Server/Session/Dispatch.antt =====
-- Which handler a session runs.
use cs_3_boost_echo_static_s.Base.{
  ℕ, ◌≡◌, ◌≢◌, ◌↔◌, refl, sym, ◌∙◌, inl, inr, Option, none, some, Option-cases, List, [], ◌∷◌, ◌++◌,
  Bytes, codes, All, equal, Bool-cases,
}
use cs_3_boost_echo_static_s.Base.Dict.{Dict, index, erase}
use cs_3_boost_echo_static_s.Base.Search.{find}
use cs_3_boost_echo_static_s.Handlers.Interface.{echo_handler, static_handler}
use cs_3_boost_echo_static_s.Server.Session.Clients.{run_with-ne-unmatched}
use cs_3_boost_echo_static_s.Http.{HttpRequest, HttpResponse}
use cs_3_boost_echo_static_s.Server.Session.{unmatched, run_handler, dispatch}
use cs_3_boost_echo_static_s.Server.Session.Maps.{path_of}

-- The path of the handler stands nowhere in the URI.
abbrev pub Misses : Bytes → Dict → Type 0
Misses uri map = find (path_of map) uri ≡ none

none-ne-some : (i : ℕ) → none ≢ some i
none-ne-some i h = cc

module _ (lexical_cast : ℕ → Bytes) (open_file : Bytes → Option Bytes) where
  pub dispatch_skip :
      (map : Dict) (handlers : List Dict) (req : HttpRequest) (rep : HttpResponse)
      → Misses req.uri map
      → dispatch lexical_cast open_file (map ∷ handlers) req rep
        ≡ dispatch lexical_cast open_file handlers req rep
  unfolding dispatch
  dispatch_skip map handlers req rep h = rw (h, dispatch)

  -- The first handler whose path stands somewhere in the URI is run, at the first such place, and
  -- no other: those before it, whose paths stand nowhere in the URI, and those behind it make no
  -- difference.
  pub dispatch_first :
      (before after : List Dict) (map : Dict) (position : ℕ) (req : HttpRequest)
      (rep : HttpResponse)
      → All (Misses req.uri) before
      → find (path_of map) req.uri ≡ some position
      → dispatch lexical_cast open_file (before ++ map ∷ after) req rep
        ≡ run_handler lexical_cast open_file
            (index (codes "path") map).1
            position
            (path_of map)
            req
            rep
  dispatch_first [] after map position req rep h f = unfold dispatch in rw (f, dispatch)
  dispatch_first (m ∷ before) after map position req rep (h, hs) f =
      dispatch_skip m (before ++ map ∷ after) req rep h
      ∙ dispatch_first before after map position req rep hs f

  run_handler-ne-unmatched :
      (map : Dict) (position : ℕ) (path : Bytes) (req : HttpRequest) (rep : HttpResponse)
      → run_handler lexical_cast open_file map position path req rep ≢ unmatched
  unfolding run_handler
  run_handler-ne-unmatched map position path req rep h =
      let config_map = erase (codes "handler") (index (codes "handler") map).1 in
      elim (Bool-cases (equal (index (codes "handler") map).0 (codes "echo"))) [
        | inl e ↦
            run_with-ne-unmatched lexical_cast config_map _ (echo_handler lexical_cast) rep
              (rw (e, run_handler) at h)
        | inr e ↦
            run_with-ne-unmatched lexical_cast config_map _ (static_handler lexical_cast open_file)
              rep (rw (e, run_handler) at h)
      ]

  -- No handler is run exactly when no configured path stands in the URI.
  pub dispatch-unmatched_iff :
      (handlers : List Dict) (req : HttpRequest) (rep : HttpResponse)
      → (dispatch lexical_cast open_file handlers req rep ≡ unmatched)
        ↔ All (Misses req.uri) handlers
  unfolding dispatch
  dispatch-unmatched_iff [] req rep = (λ _. tt, λ _. refl)
  dispatch-unmatched_iff (map ∷ handlers) req rep =
      elim (Option-cases (find (path_of map) req.uri)) [
        | inl e ↦
            let (to, from) = dispatch-unmatched_iff handlers req rep in
            (λ h. (e, to (rw (e, dispatch) at h)), λ (x, a). rw (e, dispatch) (from a))
        | inr (i, e) ↦ (
          λ h. absurd (run_handler-ne-unmatched _ i (path_of map) req rep (rw (e, dispatch) at h)),
          λ (x, a). absurd (none-ne-some i (sym x ∙ e)),
        )
      ]
