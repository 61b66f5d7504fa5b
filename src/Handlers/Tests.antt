-- ===== src/Handlers/Tests.antt =====
-- Concrete cases of the theorems on the handlers, with a machine that has one file.
use cs_3_boost_echo_static_s.MimeTypes.{extension_to_type}
use cs_3_boost_echo_static_s.Base.{
  ℕ, ◌+◌, ◌≡◌, refl, false, Option, none, some, [], ◌∷◌, Bytes, codes, equal, if◌then◌else◌,
}
use cs_3_boost_echo_static_s.Base.Search.{c_str, find, starts_with}
use cs_3_boost_echo_static_s.Handlers.{
  take_bytes, drop_bytes, read_all, extension_of, handle_static,
}
use cs_3_boost_echo_static_s.Handlers.Extension.{IsExtension, extension_of-IsExtension}
use cs_3_boost_echo_static_s.Handlers.Paths.{IsBelow, handle_static_agree}
use cs_3_boost_echo_static_s.Handlers.Replies.{IsServed, handle_static-IsServed}
use cs_3_boost_echo_static_s.Http.{HttpRequest, empty_request, empty_response}
use cs_3_boost_echo_static_s.Url.{url_decode}

abbrev pub one_digit : ℕ → Bytes
one_digit n = (b'0' + n) ∷ []

-- `/srv/a.txt` holds five bytes, and there is no other file.
abbrev pub one_file : Bytes → Option Bytes
one_file name = if equal name (codes "/srv/a.txt") then some (codes "hello") else none

abbrev get_a : HttpRequest
get_a = record empty_request { method = codes "GET"; uri = codes "/a.txt" }

static_runs : handle_static one_digit one_file (codes "/srv") get_a empty_response ≡ (
  record {
    http_version = codes "1.0";
    status_code = codes "200";
    reason_phrase = codes "OK";
    headers = (codes "Content-Length", codes "5") ∷ (codes "Content-Type", codes "text/plain") ∷ [];
    body = codes "hello";
  },
  false,
)
unfolding handle_static url_decode equal read_all take_bytes drop_bytes c_str extension_of find
    extension_to_type starts_with
static_runs = refl

handle_static-IsServed_example :
    IsServed one_digit one_file
      (codes "/srv")
      (codes "/a.txt")
      (handle_static one_digit one_file (codes "/srv") get_a empty_response).0
unfolding handle_static url_decode equal c_str find starts_with
handle_static-IsServed_example = handle_static-IsServed one_digit one_file (codes "/srv") get_a refl

-- A second machine has one more file, with the empty name.
abbrev with_secret : Bytes → Option Bytes
with_secret [] = some (codes "secret")
with_secret (c ∷ name) = one_file (c ∷ name)

one_file_agrees : (name : Bytes) → IsBelow (codes "/srv") name → one_file name ≡ with_secret name
unfolding c_str
one_file_agrees name below = rw below.name_is refl

handle_static_agree_example :
    handle_static one_digit one_file (codes "/srv") get_a empty_response
    ≡ handle_static one_digit with_secret (codes "/srv") get_a empty_response
handle_static_agree_example =
    handle_static_agree one_digit one_file with_secret (codes "/srv") one_file_agrees get_a
      empty_response

extension_of-IsExtension_example :
    IsExtension (codes "/a.b/c.tar.gz") (extension_of (codes "/a.b/c.tar.gz"))
extension_of-IsExtension_example = extension_of-IsExtension (codes "a.b/c.tar.gz")

extension_runs :
    (extension_of (codes "/a.b/c.tar.gz") ≡ codes "gz") × (extension_of (codes "/a.b/c") ≡ [])
unfolding extension_of
extension_runs = (refl, refl)
