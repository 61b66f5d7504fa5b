-- ===== src/RequestParser/Sound.antt =====
-- Whatever the parser accepts is a request, and says what the parser has stored.
use cs_3_boost_echo_static_s.Base.{
  ℕ, ◌≡◌, ◌≢◌, ◌↔◌, refl, ◌∙◌, ap, inl, inr, true, Bool-cases, [], ◌∷◌, ◌++◌, append_assoc, Bytes,
  arith, all, cons-ne-nil,
}
use cs_3_boost_echo_static_s.Http.{HttpRequest}
use cs_3_boost_echo_static_s.RequestParser.Grammar.{
  RequestText, IsRequest, crlf, write_request, meaning,
}
use cs_3_boost_echo_static_s.RequestParser.Complete.{accepted, parse-write_request}
use cs_3_boost_echo_static_s.RequestParser.Runs.{is_word, is_digit_char}
use cs_3_boost_echo_static_s.RequestParser.Inversion.{
  rejected, not_finished, continued, byte_inv, digit_inv, digits_inv, method_inv, uri_inv,
}
use cs_3_boost_echo_static_s.RequestParser.Lines.{first_lines_sound}
use cs_3_boost_echo_static_s.RequestParser.{
  method_start, method, uri, http_version_h, http_version_t_1, http_version_t_2, http_version_p,
  http_version_slash, http_version_major_start, http_version_major, http_version_minor_start,
  http_version_minor, expecting_newline_1, header_line_start, push_method, is_empty, consume, parse,
}

module _ {req' : HttpRequest} {rest : Bytes} where
  method_start_inv :
      (input : Bytes) (req : HttpRequest)
      → parse method_start req input ≡ accepted req' rest
      → (m tail : Bytes) × (m ≢ [])
        × (all is_word m ≡ true)
        × (input ≡ m ++ (b' ' ∷ tail))
        × (parse uri (record req { method = req.method ++ m }) tail ≡ accepted req' rest)
  method_start_inv [] req h = absurd (not_finished _ _ h)
  method_start_inv (c ∷ cs) req h = elim (Bool-cases (is_word c)) [
    | inl t ↦
        let (m, tail, k, s, p) = method_inv cs (push_method req c) (
          continued method_start method req (push_method req c) c cs
            (unfold consume in ground arith) h) in
        (
          c ∷ m,
          tail,
          cons-ne-nil c m,
          rw t k,
          ap (◌∷◌ c) s,
          rw (← append_assoc req.method (c ∷ []) m) p,
        )
    | inr t ↦ absurd (rejected method_start req c cs (unfold consume in ground arith) h)
  ]

  http_inv :
      (input : Bytes) (req : HttpRequest)
      → parse http_version_h req input ≡ accepted req' rest
      → (tail : Bytes) × (input ≡ b'H' ∷ b'T' ∷ b'T' ∷ b'P' ∷ b'/' ∷ tail)
        × (parse http_version_major_start req tail ≡ accepted req' rest)
  http_inv input req h0 =
      let (i1, e1, h1) =
        byte_inv http_version_h http_version_t_1 b'H' req input (λ c. unfold consume in refl) h0 in
      let (i2, e2, h2) =
        byte_inv http_version_t_1 http_version_t_2 b'T' req i1 (λ c. unfold consume in refl) h1 in
      let (i3, e3, h3) =
        byte_inv http_version_t_2 http_version_p b'T' req i2 (λ c. unfold consume in refl) h2 in
      let (i4, e4, h4) =
        byte_inv http_version_p http_version_slash b'P' req i3 (λ c. unfold consume in refl) h3 in
      let (i5, e5, h5) =
        byte_inv http_version_slash http_version_major_start b'/' req i4
          (λ c. unfold consume in refl) h4 in
      let text =
        e1 ∙ ap (◌∷◌ b'H') (e2 ∙ ap (◌∷◌ b'T') (e3 ∙ ap (◌∷◌ b'T') (e4 ∙ ap (◌∷◌ b'P') e5))) in
      (i5, text, h5)

  -- The version, up to the end of the request line.
  version_inv :
      (input : Bytes) (req : HttpRequest)
      → parse http_version_major_start req input ≡ accepted req' rest
      → (d : ℕ) × (ds : Bytes) × (e : ℕ) × (es : Bytes) × (tail : Bytes) × (all is_digit_char
            (d ∷ ds)
          ≡ true)
        × (all is_digit_char (e ∷ es) ≡ true)
        × (input ≡ d ∷ (ds ++ (b'.' ∷ e ∷ (es ++ crlf tail))))
        × (parse header_line_start req tail ≡ accepted req' rest)
  version_inv input req h =
      let (d, i1, a1, t1, h1) =
        digit_inv http_version_major_start http_version_major req input
          (λ c. unfold consume in refl) h in
      let (ds, i2, a2, t2, h2) =
        digits_inv http_version_major http_version_minor_start b'.' req i1
          (λ c. unfold consume in refl) h1 in
      let (e, i3, a3, t3, h3) =
        digit_inv http_version_minor_start http_version_minor req i2 (λ c. unfold consume in refl)
          h2 in
      let (es, i4, a4, t4, h4) =
        digits_inv http_version_minor expecting_newline_1 b'\r' req i3 (λ c. unfold consume in refl)
          h3 in
      let (tail, t5, h5) =
        byte_inv expecting_newline_1 header_line_start b'\n' req i4 (λ c. unfold consume in refl)
          h4 in
      let minor = t4 ∙ ap (λ x. es ++ (b'\r' ∷ x)) t5 in
      let text = t1 ∙ ap (◌∷◌ d) (t2 ∙ ap (λ x. ds ++ (b'.' ∷ x)) (t3 ∙ ap (◌∷◌ e) minor)) in
      (d, ds, e, es, tail, rw a1 a2, rw a3 a4, text, h5)

  IsRequest-sound :
      (input : Bytes) (req : HttpRequest)
      → is_empty req.headers ≡ true
      → parse method_start req input ≡ accepted req' rest
      → (t : RequestText) × IsRequest t × (input ≡ write_request t rest) × (req' ≡ meaning req t)
  IsRequest-sound input req o h0 =
      let (m, i1, n1, a1, t1, h1) = method_start_inv input req h0 in
      let (u, i2, a2, t2, h2) = uri_inv i1 (record req { method = req.method ++ m }) h1 in
      let asked = record req { method = req.method ++ m; uri = req.uri ++ u } in
      let (i3, t3, h3) = http_inv i2 asked h2 in
      let (d, ds, e, es, i4, a3, a4, t4, h4) = version_inv i3 asked h3 in
      let (fields, a5, t5, says) = first_lines_sound _ _ i4 asked o h4 in
      let version = ap (λ x. d ∷ (ds ++ (b'.' ∷ e ∷ (es ++ crlf x)))) t5 in
      let after_uri = t3 ∙ ap (λ x. b'H' ∷ b'T' ∷ b'T' ∷ b'P' ∷ b'/' ∷ x) (t4 ∙ version) in
      (
        record { method = m; uri = u; major = d ∷ ds; minor = e ∷ es; fields = fields },
        record {
          method_ne_nil = n1;
          method_word = a1;
          uri_plain = a2;
          major_ne_nil = cons-ne-nil d ds;
          major_digits = a3;
          minor_ne_nil = cons-ne-nil e es;
          minor_digits = a4;
          fields_are = a5;
        },
        t1 ∙ ap (λ x. m ++ (b' ' ∷ x)) (t2 ∙ ap (λ x. u ++ (b' ' ∷ x)) after_uri),
        says,
      )

-- The parser, started afresh on a request with no header yet, accepts in front of `rest` exactly the
-- texts of well-formed requests followed by `rest`, and then holds what the text says.
pub parse-accepted_iff :
    (input rest : Bytes) (req req' : HttpRequest)
    → is_empty req.headers ≡ true
    → (parse method_start req input ≡ accepted req' rest)
      ↔ ((t : RequestText) × IsRequest t × (input ≡ write_request t rest) × (req' ≡ meaning req t))
parse-accepted_iff input rest req req' o = (
  IsRequest-sound input req o,
  λ (t, h, text, says). rw (text, says) (parse-write_request t req rest h),
)
