-- ===== src/Server/Session/Maps.antt =====
-- What `session` reads of the map of a handler, in spite of what it inserts and erases before.
use cs_3_boost_echo_static_s.Base.{
  ℕ, ◌≡◌, refl, ◌∙◌, inl, inr, true, false, Option, none, some, Option-cases, [], Bytes, codes,
  equal, length,
}
use cs_3_boost_echo_static_s.Base.Dict.{Dict, lookup, index, erase, lookup-assign, lookup-erase_ne}
use cs_3_boost_echo_static_s.Base.Search.{erase_at}
use cs_3_boost_echo_static_s.Handlers.{handle_echo, handle_static}
use cs_3_boost_echo_static_s.Server.Session.Clients.{run_with_static, run_with_static-thrown}
use cs_3_boost_echo_static_s.Http.{HttpRequest, HttpResponse}
use cs_3_boost_echo_static_s.Server.Session.{Dispatched, handled, thrown, run_handler}

abbrev pub path_of : Dict → Bytes
path_of map = (index (codes "path") map).0

abbrev pub handler_of : Dict → Bytes
handler_of map = (index (codes "handler") map).0

abbrev pub directory_of : Dict → Option Bytes
directory_of map = lookup (codes "directory") map

lookup-index_ne : (k j : Bytes) (m : Dict) → equal k j ≡ false → lookup j (index k m).1 ≡ lookup j m
unfolding index
lookup-index_ne k j m h = elim (Option-cases (lookup k m)) [
  | inl e ↦ rw (e, index) (lookup-assign k j [] m ∙ rw h refl)
  | inr (v, e) ↦ rw (e, index) refl
]

index-lookup : (k : Bytes) (m m' : Dict) → lookup k m ≡ lookup k m' → (index k m).0 ≡ (index k m').0
unfolding index
index-lookup k m m' h = elim (Option-cases (lookup k m')) [
  | inl e ↦ rw (h ∙ e, e, index) refl
  | inr (v, e) ↦ rw (h ∙ e, e, index) refl
]

pub handler_behind_path :
    (map : Dict) → (index (codes "handler") (index (codes "path") map).1).0 ≡ handler_of map
unfolding equal
handler_behind_path map =
    index-lookup (codes "handler") _ map (lookup-index_ne (codes "path") (codes "handler") map refl)

pub directory_behind_path :
    (map : Dict)
    → directory_of
        (erase (codes "handler") (index (codes "handler") (index (codes "path") map).1).1)
      ≡ directory_of map
unfolding equal
directory_behind_path map =
    lookup-erase_ne (codes "handler") (codes "directory") _ refl
    ∙ lookup-index_ne (codes "handler") (codes "directory") _ refl
    ∙ lookup-index_ne (codes "path") (codes "directory") map refl

module _ (lexical_cast : ℕ → Bytes) (open_file : Bytes → Option Bytes) where
  -- The request that a handler at `position` is given.
  abbrev pub asked : ℕ → Dict → HttpRequest → HttpRequest
  asked position map req = record req { uri = erase_at position (length (path_of map)) req.uri }

  abbrev ran : ℕ → Dict → HttpRequest → HttpResponse → Dispatched
  ran position map req rep =
      run_handler lexical_cast open_file (index (codes "path") map).1 position (path_of map) req rep

  module _ (position : ℕ) (map : Dict) (req : HttpRequest) (rep : HttpResponse) where
    pub run_handler-echo :
        equal (handler_of map) (codes "echo") ≡ true
        → ran position map req rep
          ≡ handled (handle_echo lexical_cast (asked position map req) rep).0
    unfolding run_handler
    run_handler-echo h = rw (handler_behind_path map, h) refl

    pub run_handler-static :
        (directory : Bytes)
        → equal (handler_of map) (codes "echo") ≡ false
        → directory_of map ≡ some directory
        → ran position map req rep
          ≡ handled (handle_static lexical_cast open_file directory (asked position map req) rep).0
    unfolding run_handler
    run_handler-static directory h d =
        rw (handler_behind_path map, h)
          (run_with_static lexical_cast _ _ open_file rep directory (directory_behind_path map ∙ d))

    pub run_handler-thrown :
        equal (handler_of map) (codes "echo") ≡ false
        → directory_of map ≡ none
        → ran position map req rep ≡ thrown
    unfolding run_handler
    run_handler-thrown h d =
        rw (handler_behind_path map, h)
          (run_with_static-thrown lexical_cast _ _ open_file rep (directory_behind_path map ∙ d))
