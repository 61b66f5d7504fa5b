-- ===== src/Older/Reply.antt =====
-- reply.cc, with the types of handlers.h: replies of a fixed set of statuses. Here the buffers show
-- the headers of the reply itself.
use cs_3_boost_echo_static_s.Base.{
  ℕ, ◌≡◌, refl, ◌∙◌, ap, List, [], ◌∷◌, ◌++◌, append-nil, map, Bytes, codes, length, some,
}
use cs_3_boost_echo_static_s.Base.Int.{pos}
use cs_3_boost_echo_static_s.Base.Numbers.{stoi}
use cs_3_boost_echo_static_s.Response.{Buffer, buffer, constant, member}
use cs_3_boost_echo_static_s.Response.Wire.{gather, header_lines, count_dangling}

pub data StatusType : Type 0 where
  ok not_found : StatusType

pub record Header : Type 0 where
  pub name : Bytes
  pub value : Bytes

pub record Reply : Type 0 where
  pub status : StatusType
  pub headers : List Header
  pub content : Bytes

abbrev pub status_string : StatusType → Bytes
status_string ok = codes "HTTP/1.0 200 OK\r\n"
status_string not_found = codes "HTTP/1.0 404 Not Found\r\n"

-- The values that handlers.h gives to the two enumerators.
abbrev pub status_number : StatusType → ℕ
status_number ok = 200
status_number not_found = 404

-- A status line in HTTP/1.0, which begins with the code in digits.
abbrev pub code_of : StatusType → Bytes
code_of ok = codes "200"
code_of not_found = codes "404"

abbrev pub phrase_of : StatusType → Bytes
phrase_of ok = codes "OK"
phrase_of not_found = codes "Not Found"

stoi-code_of : (s : StatusType) → stoi (code_of s) ≡ some (pos (status_number s))
unfolding stoi
stoi-code_of ok = refl
stoi-code_of not_found = refl

status_string-code_of :
    (s : StatusType) (rest : Bytes)
    → status_string s ++ rest
      ≡ codes "HTTP/1.0 " ++ (code_of s ++ (codes " " ++ (phrase_of s ++ (codes "\r\n" ++ rest))))
status_string-code_of ok rest = refl
status_string-code_of not_found rest = refl

abbrev pub name_value_separator : Bytes
name_value_separator = b':' ∷ b' ' ∷ []

abbrev pub crlf : Bytes
crlf = b'\r' ∷ b'\n' ∷ []

unfoldable pub reply_header_buffers : List Header → List Buffer
reply_header_buffers [] = []
reply_header_buffers (h ∷ hs) =
    buffer member h.name
    ∷ buffer constant name_value_separator
    ∷ buffer member h.value
    ∷ buffer constant crlf
    ∷ reply_header_buffers hs

unfoldable pub reply_to_buffers : Reply → List Buffer
unfolding reply_header_buffers
reply_to_buffers r =
    buffer constant (status_string r.status)
    ∷ (reply_header_buffers r.headers ++ (buffer constant crlf ∷ buffer member r.content ∷ []))

abbrev pub stock_content : StatusType → Bytes
stock_content ok = []
stock_content not_found =
    codes "<html><head><title>Not Found</title></head><body><h1>404 Not Found</h1></body></html>"

unfoldable pub stock_reply : (ℕ → Bytes) → StatusType → Reply
stock_reply lexical_cast status = record {
  status = status;
  headers =
      record { name = codes "Content-Length"; value = lexical_cast (length (stock_content status)) }
      ∷ record { name = codes "Content-Type"; value = codes "text/html" }
      ∷ [];
  content = stock_content status;
}

abbrev pub pair_of : Header → Bytes × Bytes
pair_of h = (h.name, h.value)

gather-reply_header_buffers :
    (hs : List Header) (bs : List Buffer)
    → gather (reply_header_buffers hs ++ bs) ≡ header_lines (map pair_of hs) (gather bs)
unfolding reply_header_buffers
gather-reply_header_buffers [] bs = refl
gather-reply_header_buffers (h ∷ hs) bs = rw (gather-reply_header_buffers hs bs)

count_dangling-reply_header_buffers :
    (hs : List Header) (bs : List Buffer)
    → count_dangling (reply_header_buffers hs ++ bs) ≡ count_dangling bs
unfolding reply_header_buffers
count_dangling-reply_header_buffers [] bs = refl
count_dangling-reply_header_buffers (h ∷ hs) bs = count_dangling-reply_header_buffers hs bs

-- The buffers of a reply show it as HTTP/1.0 writes it: the code and the phrase of its status, where the
-- digits of the code are those of the enumerator, a line for each header in order, an empty line, and the
-- content; and none of them shows a local variable.
pub reply_to_buffers-shows :
    (r : Reply)
    → (gather (reply_to_buffers r)
        ≡ codes "HTTP/1.0 "
          ++ (code_of r.status
              ++ (codes " "
                  ++ (phrase_of r.status
                      ++ (codes "\r\n"
                          ++ header_lines (map pair_of r.headers) (codes "\r\n" ++ r.content))))))
      × (stoi (code_of r.status) ≡ some (pos (status_number r.status)))
      × (count_dangling (reply_to_buffers r) ≡ 0)
unfolding reply_to_buffers
reply_to_buffers-shows r = (
  ap (λ t. status_string r.status ++ t) (gather-reply_header_buffers r.headers _ ∙ rw append-nil)
      ∙ status_string-code_of r.status _,
  stoi-code_of r.status,
  count_dangling-reply_header_buffers r.headers _,
)
