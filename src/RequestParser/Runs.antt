-- ===== src/RequestParser/Runs.antt =====
-- The parser over one piece of a request, with any `rest` behind it.
use mathlib.Core.Bool.{and-eq-true_iff}
use cs_3_boost_echo_static_s.Base.{
  ℕ, Bool, ◌≡◌, refl, ◌∙◌, true, false, not, ◌&&◌, ◌||◌, some, [], ◌∷◌, ◌++◌, append-nil,
  append_assoc, Bytes, arith, all, ◌==◌,
}
use cs_3_boost_echo_static_s.Base.Int.{int_of_char}
use cs_3_boost_echo_static_s.Http.{Headers, HttpRequest}
use cs_3_boost_echo_static_s.RequestParser.Chars.{is_char, is_ctl, is_tspecial, is_digit}
use cs_3_boost_echo_static_s.RequestParser.{
  State, method, uri, http_version_major, http_version_minor, header_line_start, header_lws,
  header_name, header_value, goes_on, no_word, push_method, push_uri, push_first, push_second,
  consume, parse,
}

-- A method and a header name are written in these bytes.
abbrev pub is_word : ℕ → Bool
is_word c = not (no_word c)

abbrev pub is_text : ℕ → Bool
is_text c = not (is_ctl (int_of_char c))

-- The bytes of a URI that the parser can take: no space ends it.
abbrev pub is_uri_char : ℕ → Bool
is_uri_char c = not (c == b' ') && is_text c

abbrev pub is_digit_char : ℕ → Bool
is_digit_char c = is_digit (int_of_char c)

pub parse_step :
    (s s' : State) (req req' : HttpRequest) (c : ℕ) (input : Bytes)
    → consume s req c ≡ goes_on s' req'
    → parse s req (c ∷ input) ≡ parse s' req' input
unfolding parse
parse_step s s' req req' c input e = rw (e, parse)

push_first-concat :
    (hs : Headers) (n v : Bytes) (c : ℕ)
    → push_first c (hs ++ (n, v) ∷ []) ≡ some (hs ++ (n ++ c ∷ [], v) ∷ [])
unfolding push_first
push_first-concat [] n v c = refl
push_first-concat (h ∷ []) n v c = refl
push_first-concat (h ∷ g ∷ hs) n v c = rw (push_first-concat (g ∷ hs) n v c, push_first)

push_second-concat :
    (hs : Headers) (n v : Bytes) (c : ℕ)
    → push_second c (hs ++ (n, v) ∷ []) ≡ some (hs ++ (n, v ++ c ∷ []) ∷ [])
unfolding push_second
push_second-concat [] n v c = refl
push_second-concat (h ∷ []) n v c = refl
push_second-concat (h ∷ g ∷ hs) n v c = rw (push_second-concat (g ∷ hs) n v c, push_second)

-- What ends a word is no word byte, and so on: the branches of `consume` are disjoint.
pub word_facts :
    (c : ℕ)
    → is_word c ≡ true
    → ((c == b' ') ≡ false)
      × ((c == b':') ≡ false)
      × ((c == b'\r') ≡ false)
      × ((c == b'\t') ≡ false)
unfolding is_char is_ctl is_tspecial
word_facts c h = ground arith

pub text_facts : (c : ℕ) → is_text c ≡ true → ((c == b'\r') ≡ false) × ((c == b'\t') ≡ false)
unfolding is_ctl
text_facts c h = ground arith

pub digit_facts : (c : ℕ) → is_digit_char c ≡ true → ((c == b'.') ≡ false) × ((c == b'\r') ≡ false)
unfolding is_digit
digit_facts c h = ground arith

-- One byte of a run.
module _ (req : HttpRequest) (c : ℕ) where
  pub method_byte : is_word c ≡ true → consume method req c ≡ goes_on method (push_method req c)
  unfolding consume
  method_byte h = ground (arith, word_facts c h)

  pub uri_byte : is_uri_char c ≡ true → consume uri req c ≡ goes_on uri (push_uri req c)
  unfolding consume
  uri_byte h = ground arith

  pub major_byte :
      is_digit_char c ≡ true → consume http_version_major req c ≡ goes_on http_version_major req
  unfolding consume
  major_byte h = ground (arith, digit_facts c h)

  pub minor_byte :
      is_digit_char c ≡ true → consume http_version_minor req c ≡ goes_on http_version_minor req
  unfolding consume
  minor_byte h = ground (arith, digit_facts c h)

  pub lws_byte :
      (c == b' ' || c == b'\t') ≡ true → consume header_lws req c ≡ goes_on header_lws req
  unfolding consume
  lws_byte h = ground arith

-- The request with one more header.
abbrev pub with_header : HttpRequest → Headers → Bytes → Bytes → HttpRequest
with_header req hs n v = record req { headers = hs ++ (n, v) ∷ [] }

module _ (req : HttpRequest) (hs : Headers) (n v : Bytes) (c : ℕ) where
  pub name_byte :
      is_word c ≡ true
      → consume header_name (with_header req hs n v) c
        ≡ goes_on header_name (with_header req hs (n ++ c ∷ []) v)
  unfolding consume
  name_byte h = ground (arith, word_facts c h, push_first-concat hs n v c)

  pub value_byte :
      is_text c ≡ true
      → consume header_value (with_header req hs n v) c
        ≡ goes_on header_value (with_header req hs n (v ++ c ∷ []))
  unfolding consume
  value_byte h = ground (arith, text_facts c h, push_second-concat hs n v c)

  pub lws_end_byte :
      is_text c ≡ true
      → (c == b' ') ≡ false
      → consume header_lws (with_header req hs n v) c
        ≡ goes_on header_value (with_header req hs n (v ++ c ∷ []))
  unfolding consume
  lws_end_byte h k = ground (arith, text_facts c h, push_second-concat hs n v c)

pub first_name_byte :
    (req : HttpRequest) (c : ℕ)
    → is_word c ≡ true
    → consume header_line_start req c
      ≡ goes_on header_name (with_header req req.headers (c ∷ []) [])
unfolding consume
first_name_byte req c h = ground (arith, word_facts c h, push_first-concat req.headers [] [] c)

pub run_method :
    (cs rest : Bytes) (req : HttpRequest)
    → all is_word cs ≡ true
    → parse method req (cs ++ rest) ≡ parse method (record req { method = req.method ++ cs }) rest
run_method [] rest req h = rw append-nil
run_method (c ∷ cs) rest req h =
    let (hc, hs) = (and-eq-true_iff _ _).0 h in
    parse_step method method req _ c (cs ++ rest) (method_byte req c hc)
    ∙ run_method cs rest (push_method req c) hs
    ∙ rw append_assoc

pub run_uri :
    (cs rest : Bytes) (req : HttpRequest)
    → all is_uri_char cs ≡ true
    → parse uri req (cs ++ rest) ≡ parse uri (record req { uri = req.uri ++ cs }) rest
run_uri [] rest req h = rw append-nil
run_uri (c ∷ cs) rest req h =
    let (hc, hs) = (and-eq-true_iff _ _).0 h in
    parse_step uri uri req _ c (cs ++ rest) (uri_byte req c hc)
    ∙ run_uri cs rest (push_uri req c) hs
    ∙ rw append_assoc

pub run_major :
    (cs rest : Bytes) (req : HttpRequest)
    → all is_digit_char cs ≡ true
    → parse http_version_major req (cs ++ rest) ≡ parse http_version_major req rest
run_major [] rest req h = refl
run_major (c ∷ cs) rest req h =
    let (hc, hs) = (and-eq-true_iff _ _).0 h in
    parse_step _ _ req req c (cs ++ rest) (major_byte req c hc) ∙ run_major cs rest req hs

pub run_minor :
    (cs rest : Bytes) (req : HttpRequest)
    → all is_digit_char cs ≡ true
    → parse http_version_minor req (cs ++ rest) ≡ parse http_version_minor req rest
run_minor [] rest req h = refl
run_minor (c ∷ cs) rest req h =
    let (hc, hs) = (and-eq-true_iff _ _).0 h in
    parse_step _ _ req req c (cs ++ rest) (minor_byte req c hc) ∙ run_minor cs rest req hs

pub run_lws :
    (cs rest : Bytes) (req : HttpRequest)
    → all (λ c. c == b' ' || c == b'\t') cs ≡ true
    → parse header_lws req (cs ++ rest) ≡ parse header_lws req rest
run_lws [] rest req h = refl
run_lws (c ∷ cs) rest req h =
    let (hc, hs) = (and-eq-true_iff _ _).0 h in
    parse_step _ _ req req c (cs ++ rest) (lws_byte req c hc) ∙ run_lws cs rest req hs

module _ (req : HttpRequest) (hs : Headers) where
  pub run_name :
      (cs rest n v : Bytes)
      → all is_word cs ≡ true
      → parse header_name (with_header req hs n v) (cs ++ rest)
        ≡ parse header_name (with_header req hs (n ++ cs) v) rest
  run_name [] rest n v h = rw append-nil
  run_name (c ∷ cs) rest n v h =
      let (hc, k) = (and-eq-true_iff _ _).0 h in
      parse_step _ _ _ _ c (cs ++ rest) (name_byte req hs n v c hc)
      ∙ run_name cs rest (n ++ c ∷ []) v k
      ∙ rw append_assoc

  pub run_value :
      (cs rest n v : Bytes)
      → all is_text cs ≡ true
      → parse header_value (with_header req hs n v) (cs ++ rest)
        ≡ parse header_value (with_header req hs n (v ++ cs)) rest
  run_value [] rest n v h = rw append-nil
  run_value (c ∷ cs) rest n v h =
      let (hc, k) = (and-eq-true_iff _ _).0 h in
      parse_step _ _ _ _ c (cs ++ rest) (value_byte req hs n v c hc)
      ∙ run_value cs rest n (v ++ c ∷ []) k
      ∙ rw append_assoc
