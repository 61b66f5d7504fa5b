-- ===== src/Handlers.antt =====
-- The request handlers of request_handler.h: EchoHandler.cc, Not_Found_Handler.cc, StaticHandler.cc.
-- `boost::lexical_cast<std::string>` of a size and the files of the machine are parameters.
pub mod Replies
pub mod Paths
pub mod Extension
pub mod Interface
mod Tests
use cs_3_boost_echo_static_s.Base.{
  ℕ, zero, suc, Bool, true, false, not, ◌&&◌, ◌||◌, Option, none, some, List, [], ◌∷◌, ◌++◌, Bytes,
  codes, length, ltb, ◌==◌, if◌then◌else◌,
}
use cs_3_boost_echo_static_s.Base.Dict.{Dict, lookup}
use cs_3_boost_echo_static_s.Base.Search.{find_last_of, substr, c_str, contains}
use cs_3_boost_echo_static_s.Http.{Headers, HttpRequest, HttpResponse}
use cs_3_boost_echo_static_s.MimeTypes.{extension_to_type}
use cs_3_boost_echo_static_s.Url.{url_decode}

-- `EchoHandler::Init` and `Not_Found_Handler::Init` do nothing and return 0.
abbrev pub init_echo : Dict → Bool
init_echo config_map = false

abbrev pub init_not_found : Dict → Bool
init_not_found config_map = false

-- `StaticHandler::Init`: the directory and the returned 0, or the exception of `at`.
unfoldable pub init_static : Dict → Option (Bytes × Bool)
init_static config_map = elim (lookup (codes "directory") config_map) [
  | none ↦ none
  | some directory ↦ some (directory, false)
]

abbrev pub not_found_body : Bytes
not_found_body =
    codes
      "<html>\n<head><title>Not Found</title></head>\n<body><h1>404 Not Found</h1></body>\n</html>\n"

-- The extension of a path: what follows its last dot, if that stands behind its last slash.
extension_behind : Bytes → Option ℕ → Option ℕ → Bytes
extension_behind path none slash = []
extension_behind path (some dot) none = []
extension_behind path (some dot) (some slash) = if ltb slash dot then substr (suc dot) path else []

unfoldable pub extension_of : Bytes → Bytes
unfolding extension_behind find_last_of substr
extension_of path = extension_behind path (find_last_of b'.' path) (find_last_of b'/' path)

-- `request_path[0] != '/'` behind the test for an empty path.
abbrev pub is_absolute : Bytes → Bool
is_absolute [] = false
is_absolute (c ∷ _) = c == b'/'

-- `while (is.read(buf, 512).gcount() > 0) body.append(buf, gcount)`, with fuel.
unfoldable pub take_bytes : ℕ → Bytes → Bytes
take_bytes zero s = []
take_bytes (suc n) [] = []
take_bytes (suc n) (c ∷ s) = c ∷ take_bytes n s

unfoldable pub drop_bytes : ℕ → Bytes → Bytes
drop_bytes zero s = s
drop_bytes (suc n) [] = []
drop_bytes (suc n) (c ∷ s) = drop_bytes n s

unfoldable pub read_all : ℕ → Bytes → Bytes → Bytes
read_all zero stream body = body
read_all (suc fuel) stream body =
    let chunk = take_bytes 512 stream in
    let rest = read_all fuel (drop_bytes 512 stream) (body ++ chunk) in
    if ltb 0 (length chunk) then rest else body

module _ (lexical_cast : ℕ → Bytes) where
  -- The two headers that each handler appends, in this order.
  abbrev pub push_headers : Bytes → HttpResponse → HttpResponse
  push_headers content_type r = record r {
    headers =
        (r.headers ++ (codes "Content-Length", lexical_cast (length r.body)) ∷ [])
        ++ (codes "Content-Type", content_type) ∷ [];
  }

  abbrev pub set_not_found : HttpResponse → HttpResponse
  set_not_found r = push_headers (codes "text/html") (record r {
    status_code = codes "404";
    http_version = codes "1.0";
    reason_phrase = codes "Not Found";
    body = not_found_body;
  })

  -- Each returns the response and the returned 0.
  unfoldable pub handle_echo : HttpRequest → HttpResponse → HttpResponse × Bool
  handle_echo request r = (
    push_headers (codes "text/plain") (record r {
      status_code = codes "200";
      http_version = codes "1.0";
      reason_phrase = codes "OK";
      body = request.raw_request;
    }),
    false,
  )

  unfoldable pub handle_not_found : HttpRequest → HttpResponse → HttpResponse × Bool
  handle_not_found request r = (set_not_found r, false)

  -- The file is open: `stream` is what it holds.
  unfoldable pub send_file : Bytes → Bytes → HttpResponse → HttpResponse
  unfolding read_all
  send_file path stream r = push_headers (extension_to_type (extension_of path)) (record r {
    status_code = codes "200";
    http_version = codes "1.0";
    reason_phrase = codes "OK";
    body = read_all (suc (length stream)) stream r.body;
  })

  module _ (open_file : Bytes → Option Bytes) where
    unfoldable pub serve_path : Bytes → Bytes → HttpResponse → HttpResponse
    serve_path directory path r =
        if not (is_absolute path) || contains (codes "..") path
        then set_not_found r
        else elim (open_file (c_str (directory ++ path))) [
          | none ↦ set_not_found r
          | some stream ↦ send_file path stream r
        ]

    unfoldable pub handle_static : Bytes → HttpRequest → HttpResponse → HttpResponse × Bool
    unfolding serve_path send_file
    handle_static directory request r = elim (url_decode request.uri) [
      | none ↦ (set_not_found r, false)
      | some path ↦ (serve_path directory path r, false)
    ]
