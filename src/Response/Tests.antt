-- ===== src/Response/Tests.antt =====
-- Concrete cases of the theorems on buffers.
use cs_3_boost_echo_static_s.Base.{◌≡◌, ◌+◌, ◌*◌, [], ◌∷◌, codes, length}
use cs_3_boost_echo_static_s.Http.{HttpResponse}
use cs_3_boost_echo_static_s.Response.{to_buffers}
use cs_3_boost_echo_static_s.Response.Wire.{
  gather, gather-to_buffers, count_dangling, count_dangling-to_buffers,
}

abbrev small_response : HttpResponse
small_response = record {
  http_version = codes "1.0";
  status_code = codes "200";
  reason_phrase = codes "OK";
  headers = (codes "Content-Length", codes "1") ∷ [];
  body = codes "x";
}

gather-to_buffers_example :
    gather (to_buffers small_response) ≡ codes "HTTP/1.0 200 OK\r\nContent-Length: 1\r\n\r\nx"
gather-to_buffers_example = gather-to_buffers small_response

count_dangling-to_buffers_example :
    count_dangling (to_buffers small_response) ≡ 1 + 2 * length small_response.headers
count_dangling-to_buffers_example = count_dangling-to_buffers small_response
