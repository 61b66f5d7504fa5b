-- ===== src/Server/Routes/Page.antt =====
-- The static handler serves the pages of a route and nothing else.
use mathlib.Core.Option.{some-injective}
use cs_3_boost_echo_static_s.Base.{
  ℕ, suc, ◌≡◌, refl, sym, ◌∙◌, ap, inl, inr, true, false, not, ◌||◌, Bool-cases, Option, none, some,
  Option-cases, [], ◌∷◌, ◌++◌, Bytes, codes, arith, length,
}
use cs_3_boost_echo_static_s.Base.Finding.{find-none, find-some}
use cs_3_boost_echo_static_s.Base.Search.{find, c_str, contains}
use cs_3_boost_echo_static_s.Handlers.{
  is_absolute, set_not_found, send_file, serve_path, handle_static, handle_echo, handle_not_found,
  extension_of,
}
use cs_3_boost_echo_static_s.Handlers.Replies.{read_all-append}
use cs_3_boost_echo_static_s.Http.{HttpRequest, HttpResponse, empty_response}
use cs_3_boost_echo_static_s.MimeTypes.{extension_to_type}
use cs_3_boost_echo_static_s.Response.{to_buffers}
use cs_3_boost_echo_static_s.Response.Wire.{gather, gather-to_buffers}
use cs_3_boost_echo_static_s.Server.Routes.{Avoids, IsPage, files, Acts, ok_wire, not_found_wire}
use cs_3_boost_echo_static_s.Url.{url_decode}

pub Avoids-contains : (needle text : Bytes) → contains needle text ≡ false → Avoids needle text
Avoids-contains needle text h = find-none needle text (ground arith)

contains-Avoids : (needle text : Bytes) → Avoids needle text → contains needle text ≡ false
contains-Avoids needle text a = elim (Option-cases (find needle text)) [
  | inl e ↦ rw (e, contains) refl
  | inr (i, e) ↦ let (pre, post, s, _) = find-some needle text i e in absurd (a pre post s)
]

slash_first : (path : Bytes) → is_absolute path ≡ true → (tail : Bytes) × (path ≡ b'/' ∷ tail)
slash_first [] h = cc
slash_first (c ∷ tail) h = (tail, ground arith)

module _ (lexical_cast : ℕ → Bytes) where
  abbrev pub wire_of : HttpResponse → Bytes
  wire_of r = gather (to_buffers r)

  pub gather-not_found :
      (request : HttpRequest)
      → wire_of (handle_not_found lexical_cast request empty_response).0
        ≡ not_found_wire lexical_cast
  unfolding handle_not_found
  gather-not_found request = gather-to_buffers _

  pub gather-echo :
      (request : HttpRequest)
      → wire_of (handle_echo lexical_cast request empty_response).0
        ≡ ok_wire lexical_cast (codes "text/plain") request.raw_request
  unfolding handle_echo
  gather-echo request = gather-to_buffers _

  gather-send_file :
      (path page : Bytes)
      → wire_of (send_file lexical_cast path page empty_response)
        ≡ ok_wire lexical_cast (extension_to_type (extension_of path)) page
  unfolding send_file
  gather-send_file path page =
      gather-to_buffers _ ∙ rw (read_all-append (suc (length page)) page [] (omega arith)) refl

  module _ (open_file : Bytes → Option Bytes) (directory uri raw : Bytes) where
    abbrev Shows : HttpResponse → Type 0
    Shows r = Acts lexical_cast open_file (files directory) uri raw (wire_of r)

    Shows-missing :
        ¬ ((path : Bytes) × (page : Bytes) × IsPage open_file directory uri path page)
        → Shows (set_not_found lexical_cast empty_response)
    Shows-missing h = inr (h, gather-to_buffers _)

    same_path :
        {path path' : Bytes}
        → url_decode uri ≡ some path
        → url_decode uri ≡ some path'
        → path' ≡ path
    same_path d d' = some-injective _ _ (sym d' ∙ d)

    accepted_path :
        (path : Bytes)
        → (tail : Bytes) × (path ≡ b'/' ∷ tail)
        → Avoids (codes "..") path
        → (not (is_absolute path) || contains (codes "..") path) ≡ false
    accepted_path path (tail, e) a = rw (contains-Avoids (codes "..") path a, e) refl

    no-IsPage_refused :
        (path : Bytes)
        → url_decode uri ≡ some path
        → (not (is_absolute path) || contains (codes "..") path) ≡ true
        → ¬ ((path' : Bytes) × (page : Bytes) × IsPage open_file directory uri path' page)
    no-IsPage_refused path d k (path', page, p) =
        let e = ap (λ x. not (is_absolute x) || contains (codes "..") x) (same_path d p.decoded) in
        cc (k, e, accepted_path path' p.absolute p.no_dots)

    no-IsPage_closed :
        (path : Bytes)
        → url_decode uri ≡ some path
        → open_file (c_str (directory ++ path)) ≡ none
        → ¬ ((path' : Bytes) × (page : Bytes) × IsPage open_file directory uri path' page)
    no-IsPage_closed path d f (path', page, p) =
        let e = ap (λ x. open_file (c_str (directory ++ x))) (same_path d p.decoded) in
        cc (f, e, p.opened)

    serve_path-Shows :
        (path : Bytes)
        → url_decode uri ≡ some path
        → Shows (serve_path lexical_cast open_file directory path empty_response)
    unfolding serve_path
    serve_path-Shows path d =
        elim (Bool-cases (not (is_absolute path) || contains (codes "..") path)) [
          | inl k ↦ rw (k, serve_path) (Shows-missing (no-IsPage_refused path d k))
          | inr k ↦ elim (Option-cases (open_file (c_str (directory ++ path)))) [
            | inl f ↦ rw (k, f, serve_path) (Shows-missing (no-IsPage_closed path d f))
            | inr (page, f) ↦
                rw (k, f, serve_path)
                  (inl (
                    path,
                    page,
                    record {
                      decoded = d;
                      absolute = slash_first path (ground arith);
                      no_dots = Avoids-contains (codes "..") path (ground arith);
                      opened = f;
                    },
                    gather-send_file path page,
                  ))
          ]
        ]

  pub handle_static-Acts :
      (open_file : Bytes → Option Bytes) (directory raw : Bytes) (request : HttpRequest)
      → Acts lexical_cast open_file
          (files directory)
          request.uri
          raw
          (wire_of (handle_static lexical_cast open_file directory request empty_response).0)
  unfolding handle_static
  handle_static-Acts open_file directory raw request =
      elim (Option-cases (url_decode request.uri)) [
        | inl e ↦
            rw (e, handle_static)
              (Shows-missing open_file directory request.uri raw
                (λ (path, page, p). cc (e, p.decoded)))
        | inr (path, e) ↦
            rw (e, handle_static) (serve_path-Shows open_file directory request.uri raw path e)
      ]
