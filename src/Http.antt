-- ===== src/Http.antt =====
-- request_handler.h: `HttpRequest` and `HttpResponse`. A vector of pairs is a list of pairs.
use cs_3_boost_echo_static_s.Base.{List, [], Bytes}

abbrev pub Headers : Type 0
Headers = List (Bytes × Bytes)

pub record HttpRequest : Type 0 where
  pub raw_request : Bytes
  pub method : Bytes
  pub uri : Bytes
  pub version : Bytes
  pub headers : Headers
  pub body : Bytes

pub record HttpResponse : Type 0 where
  pub http_version : Bytes
  pub status_code : Bytes
  pub reason_phrase : Bytes
  pub headers : Headers
  pub body : Bytes

-- `HttpRequest req = {};` and `HttpResponse rep;`
abbrev pub empty_request : HttpRequest
empty_request = record {
  raw_request = [];
  method = [];
  uri = [];
  version = [];
  headers = [];
  body = [];
}

abbrev pub empty_response : HttpResponse
empty_response = record {
  http_version = [];
  status_code = [];
  reason_phrase = [];
  headers = [];
  body = [];
}
