-- ===== src/Handlers/Replies.antt =====
-- The replies of the handlers to a fresh response.
use cs_3_boost_echo_static_s.Base.{
  ℕ, zero, suc, ◌≤◌, ◌<◌, ◌≡◌, refl, ◌∙◌, ap, inl, inr, true, false, not, ◌||◌, Bool-cases, Option,
  some, Option-cases, [], ◌∷◌, ◌++◌, append-nil, append_assoc, Bytes, arith, codes, length, ltb,
}
use cs_3_boost_echo_static_s.Base.Search.{c_str, contains}
use cs_3_boost_echo_static_s.Http.{HttpRequest, HttpResponse, empty_response}
use cs_3_boost_echo_static_s.Handlers.{
  take_bytes, drop_bytes, read_all, not_found_body, is_absolute, handle_echo, handle_not_found,
  send_file, serve_path, handle_static,
}
use cs_3_boost_echo_static_s.Url.{url_decode}

take-append-drop : (n : ℕ) (s : Bytes) → take_bytes n s ++ drop_bytes n s ≡ s
unfolding take_bytes drop_bytes
take-append-drop zero s = refl
take-append-drop (suc n) [] = refl
take-append-drop (suc n) (c ∷ s) = rw (take-append-drop n s)

length-drop_bytes : (n : ℕ) (s : Bytes) → length (drop_bytes n s) ≤ length s
unfolding drop_bytes
length-drop_bytes zero s = omega arith
length-drop_bytes (suc n) [] = omega arith
length-drop_bytes (suc n) (c ∷ s) = omega (arith, length-drop_bytes n s)

first_chunk : (c : ℕ) (s : Bytes) → ltb 0 (length (take_bytes 512 (c ∷ s))) ≡ true
unfolding take_bytes
first_chunk c s = ground arith

length_after_chunk : (c : ℕ) (s : Bytes) → length (drop_bytes 512 (c ∷ s)) ≤ length s
unfolding drop_bytes
length_after_chunk c s = length-drop_bytes 511 s

-- The loop copies a stream of any length in chunks of 512 bytes, if its fuel is more than the length.
pub read_all-append :
    (fuel : ℕ) (stream body : Bytes)
    → length stream < fuel
    → read_all fuel stream body ≡ body ++ stream
unfolding read_all
read_all-append zero stream body h = absurd (omega arith)
read_all-append (suc f) [] body h = unfold take_bytes in rw append-nil
read_all-append (suc f) (c ∷ s) body h =
    let fewer = length_after_chunk c s in
    rw (first_chunk c s) (
      read_all-append f (drop_bytes 512 (c ∷ s)) (body ++ take_bytes 512 (c ∷ s)) (omega arith)
      ∙ append_assoc body _ _
      ∙ ap (λ t. body ++ t) (take-append-drop 512 (c ∷ s)))

first_byte : Bytes → ℕ
first_byte [] = 0
first_byte (c ∷ s) = c

not_200 : codes "404" ≡ codes "200" → ⊥
unfolding first_byte
not_200 e = omega (arith, ap first_byte e)

module _ (lexical_cast : ℕ → Bytes) where
  -- The replies that the server sends: HTTP 1.0, one of two statuses, the length of the body and its
  -- type.
  pub data IsReply : HttpResponse → Type 0 where
    found :
        (content_type body : Bytes)
        → IsReply (record {
          http_version = codes "1.0";
          status_code = codes "200";
          reason_phrase = codes "OK";
          headers =
              (codes "Content-Length", lexical_cast (length body))
              ∷ (codes "Content-Type", content_type)
              ∷ [];
          body = body;
        })
    missing : IsReply (record {
      http_version = codes "1.0";
      status_code = codes "404";
      reason_phrase = codes "Not Found";
      headers =
          (codes "Content-Length", lexical_cast (length not_found_body))
          ∷ (codes "Content-Type", codes "text/html")
          ∷ [];
      body = not_found_body;
    })

  pub handle_echo-IsReply :
      (request : HttpRequest) → IsReply (handle_echo lexical_cast request empty_response).0
  unfolding handle_echo
  handle_echo-IsReply request = found (codes "text/plain") request.raw_request

  pub handle_not_found-IsReply :
      (request : HttpRequest) → IsReply (handle_not_found lexical_cast request empty_response).0
  unfolding handle_not_found
  handle_not_found-IsReply request = missing

  module _ (open_file : Bytes → Option Bytes) where
    serve_path-IsReply :
        (directory path : Bytes)
        → IsReply (serve_path lexical_cast open_file directory path empty_response)
    unfolding serve_path
    serve_path-IsReply directory path =
        elim (Bool-cases (not (is_absolute path) || contains (codes "..") path)) [
          | inl e ↦ rw e missing
          | inr e ↦ rw e (elim (Option-cases (open_file (c_str (directory ++ path)))) [
            | inl f ↦ rw f missing
            | inr (stream, f) ↦ rw f (unfold send_file in found _ _)
          ])
        ]

    pub handle_static-IsReply :
        (directory : Bytes) (request : HttpRequest)
        → IsReply (handle_static lexical_cast open_file directory request empty_response).0
    unfolding handle_static
    handle_static-IsReply directory request = elim (Option-cases (url_decode request.uri)) [
      | inl e ↦ rw (e, handle_static) missing
      | inr (path, e) ↦ rw (e, handle_static) (serve_path-IsReply directory path)
    ]

    -- What a reply with status 200 says of the request and of the files.
    pub record IsServed (directory uri : Bytes) (r : HttpResponse) : Type 0 where
      pub path : Bytes
      pub stream : Bytes
      pub decoded : url_decode uri ≡ some path
      pub absolute : is_absolute path ≡ true
      pub no_dots : contains (codes "..") path ≡ false
      pub opened : open_file (c_str (directory ++ path)) ≡ some stream
      pub body_is : r.body ≡ stream

    serve_path-200 :
        (directory path uri : Bytes)
        → url_decode uri ≡ some path
        → (serve_path lexical_cast open_file directory path empty_response).status_code
          ≡ codes "200"
        → IsServed directory uri (serve_path lexical_cast open_file directory path empty_response)
    unfolding serve_path
    serve_path-200 directory path uri d h =
        elim (Bool-cases (not (is_absolute path) || contains (codes "..") path)) [
          | inl e ↦ absurd (not_200 (rw e at h))
          | inr e ↦ elim (Option-cases (open_file (c_str (directory ++ path)))) [
            | inl f ↦ absurd (not_200 (rw (e, f) at h))
            | inr (stream, f) ↦ record {
              path = path;
              stream = stream;
              decoded = d;
              absolute = ground arith;
              no_dots = ground arith;
              opened = f;
              body_is =
                  rw (e, f)
                    (unfold send_file in
                      read_all-append (suc (length stream)) stream [] (omega arith));
            }
          ]
        ]

    -- A reply with status 200 holds a file: the decoded path is absolute, has no two dots side by side,
    -- and the file of that name behind the directory could be opened; the body is all of it.
    pub handle_static-IsServed :
        (directory : Bytes) (request : HttpRequest)
        → (handle_static lexical_cast open_file directory request empty_response).0.status_code
          ≡ codes "200"
        → IsServed directory request.uri
            (handle_static lexical_cast open_file directory request empty_response).0
    unfolding handle_static
    handle_static-IsServed directory request h = elim (Option-cases (url_decode request.uri)) [
      | inl e ↦ absurd (not_200 (rw (e, handle_static) at h))
      | inr (path, e) ↦
          rw (e, handle_static)
            (serve_path-200 directory path request.uri e (rw (e, handle_static) at h))
    ]
