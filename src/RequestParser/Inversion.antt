-- ===== src/RequestParser/Inversion.antt =====
-- What the parser has read when it accepts: one lemma for each piece of a request.
pub mod HeaderLines
use cs_3_boost_echo_static_s.Base.{
  ℕ, ◌≡◌, refl, ◌∙◌, sym, ap, inl, inr, true, false, [], ◌∷◌, ◌++◌, append-nil, append_assoc, Bytes,
  arith, all, ◌==◌, ==_iff, Bool-cases, if◌then◌else◌,
}
use mathlib.Core.Path.{ap₂}
use mathlib.Core.Bool.{and-eq-true_iff}
use cs_3_boost_echo_static_s.Http.{Headers, HttpRequest}
use cs_3_boost_echo_static_s.RequestParser.Grammar.{is_lws, starts_blank, crlf}
use cs_3_boost_echo_static_s.RequestParser.Complete.{accepted}
use cs_3_boost_echo_static_s.RequestParser.Runs.{
  is_word, is_text, is_uri_char, is_digit_char, parse_step, with_header, name_byte, value_byte,
  lws_byte, lws_end_byte, method_byte, uri_byte,
}
use cs_3_boost_echo_static_s.RequestParser.{
  State, method, uri, http_version_h, header_line_start, header_lws, header_name,
  space_before_header_value, header_value, expecting_newline_2, goes_on, rejects, push_method,
  push_uri, consume, parse,
}

module _ {req' : HttpRequest} {rest : Bytes} where
  pub rejected :
      (s : State) (req : HttpRequest) (c : ℕ) (input : Bytes)
      → consume s req c ≡ rejects s req
      → parse s req (c ∷ input) ≡ accepted req' rest
      → ⊥
  unfolding parse
  rejected s req c input e h = cc (rw (e, parse) at h)

  pub not_finished : (s : State) (req : HttpRequest) → parse s req [] ≡ accepted req' rest → ⊥
  unfolding parse
  not_finished s req h = cc

  pub continued :
      (s s' : State) (req next : HttpRequest) (c : ℕ) (input : Bytes)
      → consume s req c ≡ goes_on s' next
      → parse s req (c ∷ input) ≡ accepted req' rest
      → parse s' next input ≡ accepted req' rest
  continued s s' req next c input e h = sym (parse_step s s' req next c input e) ∙ h

  -- A state that waits for one byte.
  pub byte_inv :
      (s s' : State) (k : ℕ) (req : HttpRequest) (input : Bytes)
      → ((c : ℕ) → consume s req c ≡ (if c == k then goes_on s' req else rejects s req))
      → parse s req input ≡ accepted req' rest
      → (tail : Bytes) × (input ≡ k ∷ tail) × (parse s' req tail ≡ accepted req' rest)
  byte_inv s s' k req [] f h = absurd (not_finished s req h)
  byte_inv s s' k req (c ∷ cs) f h = elim (Bool-cases (c == k)) [
    | inl e ↦
        let step : consume s req c ≡ goes_on s' req = f c ∙ rw e in
        (cs, ap (λ x. x ∷ cs) ((==_iff c k).0 e), continued s s' req req c cs step h)
    | inr e ↦
        let step : consume s req c ≡ rejects s req = f c ∙ rw e in
        absurd (rejected s req c cs step h)
  ]

  -- A state that waits for the first digit of a number.
  pub digit_inv :
      (s s' : State) (req : HttpRequest) (input : Bytes)
      → ((c : ℕ) → consume s req c ≡ (if is_digit_char c then goes_on s' req else rejects s req))
      → parse s req input ≡ accepted req' rest
      → (d : ℕ) × (tail : Bytes) × (is_digit_char d ≡ true)
        × (input ≡ d ∷ tail)
        × (parse s' req tail ≡ accepted req' rest)
  digit_inv s s' req [] f h = absurd (not_finished s req h)
  digit_inv s s' req (c ∷ cs) f h = elim (Bool-cases (is_digit_char c)) [
    | inl e ↦
        let step : consume s req c ≡ goes_on s' req = f c ∙ rw e in
        (c, cs, e, refl, continued s s' req req c cs step h)
    | inr e ↦
        let step : consume s req c ≡ rejects s req = f c ∙ rw e in
        absurd (rejected s req c cs step h)
  ]

  -- A state that reads digits up to the byte `k`.
  pub digits_inv :
      (s s' : State) (k : ℕ) (req : HttpRequest) (input : Bytes)
      → ((c : ℕ)
          → consume s req c ≡ (
              if c == k
              then goes_on s' req
              else if is_digit_char c
              then goes_on s req
              else rejects s req))
      → parse s req input ≡ accepted req' rest
      → (ds tail : Bytes) × (all is_digit_char ds ≡ true)
        × (input ≡ ds ++ (k ∷ tail))
        × (parse s' req tail ≡ accepted req' rest)
  digits_inv s s' k req [] f h = absurd (not_finished s req h)
  digits_inv s s' k req (c ∷ cs) f h = elim (Bool-cases (c == k)) [
    | inl e ↦
        let step : consume s req c ≡ goes_on s' req = f c ∙ rw e in
        ([], cs, refl, ap (λ x. x ∷ cs) ((==_iff c k).0 e), continued s s' req req c cs step h)
    | inr e ↦ elim (Bool-cases (is_digit_char c)) [
      | inl t ↦
          let step : consume s req c ≡ goes_on s req = f c ∙ rw e (rw t) in
          let (ds, tail, a, i, p) =
            digits_inv s s' k req cs f (continued s s req req c cs step h) in
          let all_digits : all is_digit_char (c ∷ ds) ≡ true = (and-eq-true_iff _ _).1 (t, a) in
          (c ∷ ds, tail, all_digits, ap (◌∷◌ c) i, p)
      | inr t ↦
          let step : consume s req c ≡ rejects s req = f c ∙ rw e (rw t) in
          absurd (rejected s req c cs step h)
    ]
  ]

  pub method_inv :
      (input : Bytes) (req : HttpRequest)
      → parse method req input ≡ accepted req' rest
      → (m tail : Bytes) × (all is_word m ≡ true)
        × (input ≡ m ++ (b' ' ∷ tail))
        × (parse uri (record req { method = req.method ++ m }) tail ≡ accepted req' rest)
  method_inv [] req h = absurd (not_finished _ _ h)
  method_inv (c ∷ cs) req h = elim (Bool-cases (c == b' ')) [
    | inl e ↦ (
      [],
      cs,
      refl,
      ap (λ x. x ∷ cs) ((==_iff c b' ').0 e),
      rw append-nil (continued method uri req req c cs (unfold consume in rw e) h),
    )
    | inr e ↦ elim (Bool-cases (is_word c)) [
      | inl t ↦
          let (m, tail, k, s, p) =
            method_inv cs (push_method req c)
              (continued method method req _ c cs (method_byte req c t) h) in
          (c ∷ m, tail, rw t k, ap (◌∷◌ c) s, rw (← append_assoc req.method (c ∷ []) m) p)
      | inr t ↦ absurd (rejected method req c cs (unfold consume in ground arith) h)
    ]
  ]

  pub uri_inv :
      (input : Bytes) (req : HttpRequest)
      → parse uri req input ≡ accepted req' rest
      → (u tail : Bytes) × (all is_uri_char u ≡ true)
        × (input ≡ u ++ (b' ' ∷ tail))
        × (parse http_version_h (record req { uri = req.uri ++ u }) tail ≡ accepted req' rest)
  uri_inv [] req h = absurd (not_finished _ _ h)
  uri_inv (c ∷ cs) req h = elim (Bool-cases (c == b' ')) [
    | inl e ↦ (
      [],
      cs,
      refl,
      ap (λ x. x ∷ cs) ((==_iff c b' ').0 e),
      rw append-nil (continued uri http_version_h req req c cs (unfold consume in rw e) h),
    )
    | inr e ↦ elim (Bool-cases (is_uri_char c)) [
      | inl t ↦
          let (u, tail, k, s, p) =
            uri_inv cs (push_uri req c) (continued uri uri req _ c cs (uri_byte req c t) h) in
          (c ∷ u, tail, rw t k, ap (◌∷◌ c) s, rw (← append_assoc req.uri (c ∷ []) u) p)
      | inr t ↦ absurd (rejected uri req c cs (unfold consume in ground arith) h)
    ]
  ]
