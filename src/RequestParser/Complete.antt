-- ===== src/RequestParser/Complete.antt =====
-- The parser accepts every request, with what it says.
use cs_3_boost_echo_static_s.Base.{
  ℕ, ◌≡◌, ◌≢◌, refl, ◌∙◌, true, false, some, Option, List, [], ◌∷◌, ◌++◌, append-nil, append_assoc,
  Bytes, arith, all, All, map,
}
use mathlib.Core.Bool.{and-eq-true_iff}
use cs_3_boost_echo_static_s.Http.{Headers, HttpRequest}
use cs_3_boost_echo_static_s.RequestParser.Grammar.{
  is_lws, Fold, Field, RequestText, starts_blank, IsFold, IsField, IsRequest, crlf, write_folds,
  write_fields, write_request, unfold_value, header_of, meaning,
}
use cs_3_boost_echo_static_s.RequestParser.Runs.{
  is_word, is_text, is_digit_char, parse_step, with_header, first_name_byte, lws_end_byte,
  run_method, run_uri, run_major, run_minor, run_lws, run_name, run_value,
}
use cs_3_boost_echo_static_s.RequestParser.{
  method_start, method, uri, http_version_major_start, http_version_major, http_version_minor_start,
  http_version_minor, header_line_start, header_lws, header_name, header_value, expecting_newline_3,
  complete, Parsed, goes_on, push_method, is_empty, consume, parse,
}

-- What `parse` answers when the request ends in front of `rest`.
abbrev pub accepted : HttpRequest → Bytes → Option Parsed
accepted req rest =
    some (record { result = complete; state = expecting_newline_3; req = req; rest = rest })

-- The fixed bytes between the pieces of a request.
module _ (req : HttpRequest) (rest : Bytes) where
  method_space : parse method req (b' ' ∷ rest) ≡ parse uri req rest
  unfolding parse consume
  method_space = refl

  uri_http :
      parse uri req (b' ' ∷ b'H' ∷ b'T' ∷ b'T' ∷ b'P' ∷ b'/' ∷ rest)
      ≡ parse http_version_major_start req rest
  unfolding parse consume
  uri_http = refl

  major_dot : parse http_version_major req (b'.' ∷ rest) ≡ parse http_version_minor_start req rest
  unfolding parse consume
  major_dot = refl

  minor_crlf : parse http_version_minor req (crlf rest) ≡ parse header_line_start req rest
  unfolding parse consume
  minor_crlf = refl

  name_colon : parse header_name req (b':' ∷ b' ' ∷ rest) ≡ parse header_value req rest
  unfolding parse consume
  name_colon = refl

  value_crlf : parse header_value req (crlf rest) ≡ parse header_line_start req rest
  unfolding parse consume
  value_crlf = refl

  lws_crlf : parse header_lws req (crlf rest) ≡ parse header_line_start req rest
  unfolding parse consume
  lws_crlf = refl

  end_request : parse header_line_start req (crlf rest) ≡ accepted req rest
  unfolding parse consume
  end_request = refl

pub is_empty-concat : (hs : Headers) (h : Bytes × Bytes) → is_empty (hs ++ h ∷ []) ≡ false
is_empty-concat [] h = refl
is_empty-concat (g ∷ hs) h = refl

module _ (req : HttpRequest) (hs : Headers) (n : Bytes) where
  pub lws_start :
      (v : Bytes) (c : ℕ)
      → is_lws c ≡ true
      → consume header_line_start (with_header req hs n v) c
        ≡ goes_on header_lws (with_header req hs n v)
  unfolding consume
  lws_start v c h = ground (arith, is_empty-concat hs (n, v))

  fold_text :
      (v text rest : Bytes)
      → all is_text text ≡ true
      → starts_blank text ≡ false
      → parse header_lws (with_header req hs n v) (text ++ crlf rest)
        ≡ parse header_line_start (with_header req hs n (v ++ text)) rest
  fold_text v [] rest h k = rw append-nil (lws_crlf _ rest)
  fold_text v (c ∷ cs) rest h k =
      let (hc, ht) = (and-eq-true_iff _ _).0 h in
      parse_step _ _ _ _ c _ (lws_end_byte req hs n v c hc k)
      ∙ run_value req hs cs (crlf rest) n (v ++ c ∷ []) ht
      ∙ value_crlf _ rest
      ∙ rw append_assoc

  run_folds :
      (fs : List Fold) (v rest : Bytes)
      → All IsFold fs
      → parse header_line_start (with_header req hs n v) (write_folds fs rest)
        ≡ parse header_line_start (with_header req hs n (unfold_value v fs)) rest
  run_folds [] v rest h = refl
  run_folds (f ∷ fs) v rest (h, k) =
      parse_step header_line_start header_lws _ _ f.blank _ (lws_start v f.blank h.blank_lws)
      ∙ run_lws f.blanks _ _ h.blanks_lws
      ∙ fold_text v f.text _ h.text_plain h.text_starts
      ∙ run_folds fs (v ++ f.text) rest k

run_first_name :
    (n rest : Bytes) (req : HttpRequest)
    → n ≢ []
    → all is_word n ≡ true
    → parse header_line_start req (n ++ rest)
      ≡ parse header_name (with_header req req.headers n []) rest
run_first_name [] rest req ne h = absurd (ne refl)
run_first_name (c ∷ n) rest req ne h =
    let (hc, hn) = (and-eq-true_iff _ _).0 h in
    parse_step _ _ _ _ c (n ++ rest) (first_name_byte req c hc)
    ∙ run_name req req.headers n rest (c ∷ []) [] hn

run_field :
    (f : Field) (req : HttpRequest) (rest : Bytes)
    → IsField f
    → parse header_line_start req (write_fields (f ∷ []) rest)
      ≡ parse header_line_start (record req { headers = req.headers ++ header_of f ∷ [] }) rest
run_field f req rest h =
    run_first_name f.name _ req h.name_ne_nil h.name_word
    ∙ name_colon _ _
    ∙ run_value req req.headers f.value _ f.name [] h.value_plain
    ∙ value_crlf _ _
    ∙ run_folds req req.headers f.name f.folds f.value rest h.folds_are

run_fields :
    (fs : List Field) (req : HttpRequest) (rest : Bytes)
    → All IsField fs
    → parse header_line_start req (write_fields fs rest)
      ≡ parse header_line_start (record req { headers = req.headers ++ map header_of fs }) rest
run_fields [] req rest h = rw append-nil
run_fields (f ∷ fs) req rest (h, k) =
    run_field f req (write_fields fs rest) h ∙ run_fields fs _ rest k ∙ rw append_assoc

module _ (req : HttpRequest) (c : ℕ) where
  first_method_byte :
      is_word c ≡ true → consume method_start req c ≡ goes_on method (push_method req c)
  unfolding consume
  first_method_byte h = ground arith

  first_major_byte :
      is_digit_char c ≡ true
      → consume http_version_major_start req c ≡ goes_on http_version_major req
  unfolding consume
  first_major_byte h = ground arith

  first_minor_byte :
      is_digit_char c ≡ true
      → consume http_version_minor_start req c ≡ goes_on http_version_minor req
  unfolding consume
  first_minor_byte h = ground arith

run_first_method :
    (m rest : Bytes) (req : HttpRequest)
    → m ≢ []
    → all is_word m ≡ true
    → parse method_start req (m ++ rest)
      ≡ parse method (record req { method = req.method ++ m }) rest
run_first_method [] rest req ne h = absurd (ne refl)
run_first_method (c ∷ m) rest req ne h =
    let (hc, hm) = (and-eq-true_iff _ _).0 h in
    parse_step method_start method req (push_method req c) c (m ++ rest)
      (first_method_byte req c hc)
    ∙ run_method m rest (push_method req c) hm
    ∙ rw append_assoc

run_first_major :
    (ds rest : Bytes) (req : HttpRequest)
    → ds ≢ []
    → all is_digit_char ds ≡ true
    → parse http_version_major_start req (ds ++ rest) ≡ parse http_version_major req rest
run_first_major [] rest req ne h = absurd (ne refl)
run_first_major (c ∷ ds) rest req ne h =
    let (hc, hd) = (and-eq-true_iff _ _).0 h in
    parse_step http_version_major_start http_version_major req req c (ds ++ rest)
      (first_major_byte req c hc)
    ∙ run_major ds rest req hd

run_first_minor :
    (ds rest : Bytes) (req : HttpRequest)
    → ds ≢ []
    → all is_digit_char ds ≡ true
    → parse http_version_minor_start req (ds ++ rest) ≡ parse http_version_minor req rest
run_first_minor [] rest req ne h = absurd (ne refl)
run_first_minor (c ∷ ds) rest req ne h =
    let (hc, hd) = (and-eq-true_iff _ _).0 h in
    parse_step http_version_minor_start http_version_minor req req c (ds ++ rest)
      (first_minor_byte req c hc)
    ∙ run_minor ds rest req hd

-- Whatever follows it, a well-formed request is accepted, in one call, with its method, URI and
-- headers, and none of what follows it is read.
pub parse-write_request :
    (t : RequestText) (req : HttpRequest) (rest : Bytes)
    → IsRequest t
    → parse method_start req (write_request t rest) ≡ accepted (meaning req t) rest
parse-write_request t req rest h =
    run_first_method t.method _ req h.method_ne_nil h.method_word
    ∙ method_space _ _
    ∙ run_uri t.uri _ _ h.uri_plain
    ∙ uri_http _ _
    ∙ run_first_major t.major _ _ h.major_ne_nil h.major_digits
    ∙ major_dot _ _
    ∙ run_first_minor t.minor _ _ h.minor_ne_nil h.minor_digits
    ∙ minor_crlf _ _
    ∙ run_fields t.fields _ (crlf rest) h.fields_are
    ∙ end_request _ rest
