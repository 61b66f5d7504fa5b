-- ===== src/RequestParser/Inversion/HeaderLines.antt =====
-- The pieces of the header lines.
use cs_3_boost_echo_static_s.Base.{
  ℕ, ◌≡◌, refl, ap, inl, inr, true, false, [], ◌∷◌, ◌++◌, append-nil, append_assoc, Bytes, arith,
  all, ◌==◌, ==_iff, Bool-cases,
}
use mathlib.Core.Path.{ap₂}
use cs_3_boost_echo_static_s.Http.{Headers, HttpRequest}
use cs_3_boost_echo_static_s.RequestParser.Grammar.{is_lws, starts_blank, crlf}
use cs_3_boost_echo_static_s.RequestParser.Complete.{accepted}
use cs_3_boost_echo_static_s.RequestParser.Runs.{
  is_word, is_text, with_header, name_byte, value_byte, lws_byte, lws_end_byte,
}
use cs_3_boost_echo_static_s.RequestParser.{
  State, header_line_start, header_lws, header_name, space_before_header_value, header_value,
  expecting_newline_2, goes_on, consume, parse,
}
use cs_3_boost_echo_static_s.RequestParser.Inversion.{rejected, not_finished, continued, byte_inv}

module _ {req' : HttpRequest} {rest : Bytes} where
  newline_2_inv :
      (input : Bytes) (req : HttpRequest)
      → parse expecting_newline_2 req input ≡ accepted req' rest
      → (tail : Bytes) × (input ≡ b'\n' ∷ tail)
        × (parse header_line_start req tail ≡ accepted req' rest)
  newline_2_inv input req =
      byte_inv expecting_newline_2 header_line_start b'\n' req input (λ c. unfold consume in refl)

  end_line :
      (s : State) (req : HttpRequest) (c : ℕ) (cs : Bytes)
      → (c == b'\r') ≡ true
      → consume s req c ≡ goes_on expecting_newline_2 req
      → parse s req (c ∷ cs) ≡ accepted req' rest
      → (tail : Bytes) × (c ∷ cs ≡ crlf tail)
        × (parse header_line_start req tail ≡ accepted req' rest)
  end_line s req c cs e step h =
      let (tail, t, p) =
        newline_2_inv cs req (continued s expecting_newline_2 req req c cs step h) in
      (tail, ap₂ ◌∷◌ ((==_iff c b'\r').0 e) t, p)

  pub value_inv :
      (input : Bytes) (req : HttpRequest) (hs : Headers) (n v : Bytes)
      → parse header_value (with_header req hs n v) input ≡ accepted req' rest
      → (text tail : Bytes) × (all is_text text ≡ true)
        × (input ≡ text ++ crlf tail)
        × (parse header_line_start (with_header req hs n (v ++ text)) tail ≡ accepted req' rest)
  value_inv [] req hs n v h = absurd (not_finished _ _ h)
  value_inv (c ∷ cs) req hs n v h = elim (Bool-cases (c == b'\r')) [
    | inl e ↦
        let (tail, t, p) =
          end_line header_value (with_header req hs n v) c cs e (unfold consume in rw e) h in
        ([], tail, refl, t, rw append-nil p)
    | inr e ↦ elim (Bool-cases (is_text c)) [
      | inl t ↦
          let (text, tail, k, s, p) =
            value_inv cs req hs n (v ++ c ∷ [])
              (continued header_value header_value _ _ c cs (value_byte req hs n v c t) h) in
          (c ∷ text, tail, rw t k, ap (◌∷◌ c) s, rw (← append_assoc v (c ∷ []) text) p)
      | inr t ↦
          absurd
            (rejected header_value (with_header req hs n v) c cs (unfold consume in ground arith) h)
    ]
  ]

  pub lws_inv :
      (input : Bytes) (req : HttpRequest) (hs : Headers) (n v : Bytes)
      → parse header_lws (with_header req hs n v) input ≡ accepted req' rest
      → (blanks text tail : Bytes) × (all is_lws blanks ≡ true)
        × (all is_text text ≡ true)
        × (starts_blank text ≡ false)
        × (input ≡ blanks ++ (text ++ crlf tail))
        × (parse header_line_start (with_header req hs n (v ++ text)) tail ≡ accepted req' rest)
  lws_inv [] req hs n v h = absurd (not_finished _ _ h)
  lws_inv (c ∷ cs) req hs n v h = elim (Bool-cases (c == b'\r')) [
    | inl e ↦
        let (tail, t, p) =
          end_line header_lws (with_header req hs n v) c cs e (unfold consume in rw e) h in
        ([], [], tail, refl, refl, refl, t, rw append-nil p)
    | inr e ↦ elim (Bool-cases (is_lws c)) [
      | inl b ↦
          let base = with_header req hs n v in
          let (blanks, text, tail, k, l, m, s, p) =
            lws_inv cs req hs n v
              (continued header_lws header_lws base base c cs (lws_byte base c b) h) in
          (c ∷ blanks, text, tail, rw b k, l, m, ap (◌∷◌ c) s, p)
      | inr b ↦ elim (Bool-cases (is_text c)) [
        | inl t ↦
            let not_space : (c == b' ') ≡ false = ground arith in
            let (text, tail, k, s, p) = value_inv cs req hs n (v ++ c ∷ []) (
              continued header_lws header_value _ _ c cs (lws_end_byte req hs n v c t not_space)
                h) in
            (
              [],
              c ∷ text,
              tail,
              refl,
              rw t k,
              not_space,
              ap (◌∷◌ c) s,
              rw (← append_assoc v (c ∷ []) text) p,
            )
        | inr t ↦
            absurd
              (rejected header_lws (with_header req hs n v) c cs (unfold consume in ground arith) h)
      ]
    ]
  ]

  space_inv :
      (input : Bytes) (req : HttpRequest)
      → parse space_before_header_value req input ≡ accepted req' rest
      → (tail : Bytes) × (input ≡ b' ' ∷ tail) × (parse header_value req tail ≡ accepted req' rest)
  space_inv input req =
      byte_inv space_before_header_value header_value b' ' req input (λ c. unfold consume in refl)

  pub name_inv :
      (input : Bytes) (req : HttpRequest) (hs : Headers) (n v : Bytes)
      → parse header_name (with_header req hs n v) input ≡ accepted req' rest
      → (m tail : Bytes) × (all is_word m ≡ true)
        × (input ≡ m ++ (b':' ∷ b' ' ∷ tail))
        × (parse header_value (with_header req hs (n ++ m) v) tail ≡ accepted req' rest)
  name_inv [] req hs n v h = absurd (not_finished _ _ h)
  name_inv (c ∷ cs) req hs n v h = elim (Bool-cases (c == b':')) [
    | inl e ↦
        let base = with_header req hs n v in
        let (tail, t, p) = space_inv cs base (
          continued header_name space_before_header_value base base c cs (unfold consume in rw e)
            h) in
        ([], tail, refl, ap₂ ◌∷◌ ((==_iff c b':').0 e) t, rw append-nil p)
    | inr e ↦ elim (Bool-cases (is_word c)) [
      | inl t ↦
          let (m, tail, k, s, p) =
            name_inv cs req hs (n ++ c ∷ []) v
              (continued header_name header_name _ _ c cs (name_byte req hs n v c t) h) in
          (c ∷ m, tail, rw t k, ap (◌∷◌ c) s, rw (← append_assoc n (c ∷ []) m) p)
      | inr t ↦
          absurd
            (rejected header_name (with_header req hs n v) c cs (unfold consume in ground arith) h)
    ]
  ]
