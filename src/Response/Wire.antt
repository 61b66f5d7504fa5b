-- ===== src/Response/Wire.antt =====
-- What the buffers of a response show, and how many of them outlive the call that makes them.
use cs_3_boost_echo_static_s.Base.{
  ℕ, suc, ◌+◌, ◌*◌, ◌≡◌, refl, ◌∙◌, ap, List, [], ◌∷◌, ◌++◌, append-nil, append_assoc, codes, Bytes,
  arith, length,
}
use cs_3_boost_echo_static_s.Http.{Headers, HttpResponse}
use cs_3_boost_echo_static_s.Response.{
  crlf, local_variable, member, constant, Buffer, status_line, header_buffers, to_buffers,
}

-- The bytes that the buffers show together.
abbrev pub gather : List Buffer → Bytes
gather [] = []
gather (b ∷ bs) = b.content ++ gather bs

-- Header lines as HTTP writes them, in front of `rest`.
abbrev pub header_lines : Headers → Bytes → Bytes
header_lines [] rest = rest
header_lines ((n, v) ∷ hs) rest = n ++ (codes ": " ++ (v ++ (codes "\r\n" ++ header_lines hs rest)))

gather-header_buffers :
    (hs : Headers) (bs : List Buffer)
    → gather (header_buffers hs ++ bs) ≡ header_lines hs (gather bs)
unfolding header_buffers
gather-header_buffers [] bs = refl
gather-header_buffers ((n, v) ∷ hs) bs = rw (gather-header_buffers hs bs)

status_line_append :
    (r : HttpResponse) (rest : Bytes)
    → status_line r ++ rest
      ≡ codes "HTTP/"
        ++ (r.http_version
            ++ (codes " "
                ++ (r.status_code ++ (codes " " ++ (r.reason_phrase ++ (codes "\r\n" ++ rest))))))
status_line_append r rest =
    ap (λ t. codes "HTTP/" ++ t)
      (append_assoc r.http_version _ rest
        ∙ ap (λ t. r.http_version ++ b' ' ∷ t)
            (append_assoc r.status_code _ rest
              ∙ ap (λ t. r.status_code ++ b' ' ∷ t) (append_assoc r.reason_phrase crlf rest)))

-- When they are made, the buffers show a response as HTTP writes it: the version, the code and the
-- reason with blanks between them, a line for each header in order, an empty line, and the body.
pub gather-to_buffers :
    (r : HttpResponse)
    → gather (to_buffers r)
      ≡ codes "HTTP/"
        ++ (r.http_version
            ++ (codes " "
                ++ (r.status_code
                    ++ (codes " "
                        ++ (r.reason_phrase
                            ++ (codes "\r\n"
                                ++ header_lines r.headers (codes "\r\n" ++ r.body)))))))
unfolding to_buffers
gather-to_buffers r =
    ap (λ t. status_line r ++ t) (gather-header_buffers r.headers _ ∙ rw append-nil)
    ∙ status_line_append r _

-- The buffers whose storage is gone when the function has returned.
abbrev pub count_dangling : List Buffer → ℕ
count_dangling [] = 0
count_dangling (b ∷ bs) = elim b.owner [
  | local_variable ↦ suc (count_dangling bs)
  | member ↦ count_dangling bs
  | constant ↦ count_dangling bs
]

count_dangling-header_buffers :
    (hs : Headers) (bs : List Buffer)
    → count_dangling (header_buffers hs ++ bs) ≡ 2 * length hs + count_dangling bs
unfolding header_buffers
count_dangling-header_buffers [] bs = omega arith
count_dangling-header_buffers ((n, v) ∷ hs) bs = omega (arith, count_dangling-header_buffers hs bs)

-- The status line and both parts of every header are in storage that is gone when the function
-- returns: one buffer and two for each header.
pub count_dangling-to_buffers :
    (r : HttpResponse) → count_dangling (to_buffers r) ≡ 1 + 2 * length r.headers
unfolding to_buffers
count_dangling-to_buffers r = omega (arith, count_dangling-header_buffers r.headers _)
