-- ===== src/Response.antt =====
-- HttpResponse.cc: the buffers that are handed to `boost::asio::write`. A buffer does not own its
-- bytes: it carries whose storage it points to.
pub mod Wire
mod Tests
use cs_3_boost_echo_static_s.Base.{ℕ, Bool, true, false, List, [], ◌∷◌, ◌++◌, Bytes, codes}
use cs_3_boost_echo_static_s.Http.{Headers, HttpResponse}

-- A local variable of the function that makes the buffer, the object that it is called on, or a
-- constant of the program.
pub data Owner : Type 0 where
  local_variable member constant : Owner

-- `boost::asio::const_buffer`, with the bytes that it shows when it is made.
pub record Buffer : Type 0 where
  pub owner : Owner
  pub content : Bytes

abbrev pub buffer : Owner → Bytes → Buffer
buffer o c = record { owner = o; content = c }

abbrev pub name_value_separator : Bytes
name_value_separator = b':' ∷ b' ' ∷ []

abbrev pub crlf : Bytes
crlf = b'\r' ∷ b'\n' ∷ []

abbrev pub status_line : HttpResponse → Bytes
status_line r =
    codes "HTTP/"
    ++ (r.http_version ++ (b' ' ∷ (r.status_code ++ (b' ' ∷ (r.reason_phrase ++ crlf)))))

-- The loop over the headers, which copies each into the local `h`.
unfoldable pub header_buffers : Headers → List Buffer
header_buffers [] = []
header_buffers ((n, v) ∷ hs) =
    buffer local_variable n
    ∷ buffer constant name_value_separator
    ∷ buffer local_variable v
    ∷ buffer constant crlf
    ∷ header_buffers hs

unfoldable pub to_buffers : HttpResponse → List Buffer
unfolding header_buffers
to_buffers r =
    buffer local_variable (status_line r)
    ∷ (header_buffers r.headers ++ (buffer constant crlf ∷ buffer member r.body ∷ []))
