-- ===== src/RequestParser/Lines.antt =====
-- What the parser has read of the header lines when it accepts.
use cs_3_boost_echo_static_s.Base.{
  ℕ, suc, zero, ◌≤◌, ◌<◌, ◌≡◌, ◌∙◌, ap, inl, inr, true, false, not, ◌&&◌, List, [], ◌∷◌, ◌++◌,
  append-nil, append_assoc, Bytes, arith, all, All, map, length, length-append, ◌==◌, ==_iff,
  Bool-cases, cons-ne-nil,
}
use mathlib.Core.Path.{ap₂}
use cs_3_boost_echo_static_s.Http.{Headers, HttpRequest}
use cs_3_boost_echo_static_s.RequestParser.Grammar.{
  is_lws, Fold, Field, starts_blank, IsFold, IsField, crlf, write_folds, write_fields, unfold_value,
  header_of,
}
use cs_3_boost_echo_static_s.RequestParser.Complete.{accepted, is_empty-concat, lws_start}
use cs_3_boost_echo_static_s.RequestParser.Runs.{is_word, is_text, with_header, first_name_byte}
use cs_3_boost_echo_static_s.RequestParser.Inversion.{rejected, not_finished, continued}
use cs_3_boost_echo_static_s.RequestParser.Inversion.HeaderLines.{value_inv, lws_inv, name_inv}
use cs_3_boost_echo_static_s.RequestParser.{
  header_line_start, header_lws, header_name, expecting_newline_3, is_empty, consume, parse,
}

module _ (req' : HttpRequest) (rest : Bytes) where
  -- Behind the header `(n, v)`: continuation lines of it, and more headers.
  pub record Lines (req : HttpRequest) (hs : Headers) (n v input : Bytes) : Type 0 where
    pub folds : List Fold
    pub fields : List Field
    pub folds_are : All IsFold folds
    pub fields_are : All IsField fields
    pub text_is : input ≡ write_folds folds (write_fields fields (crlf rest))
    pub says :
        req'
        ≡ record req { headers = (hs ++ (n, unfold_value v folds) ∷ []) ++ map header_of fields }

  newline_3_inv :
      (input : Bytes) (req : HttpRequest)
      → parse expecting_newline_3 req input ≡ accepted req' rest
      → (input ≡ b'\n' ∷ rest) × (req' ≡ req)
  unfolding parse consume
  newline_3_inv [] req h = ground arith
  newline_3_inv (c ∷ cs) req h = ground arith

  -- A byte that can begin no header line.
  no_line :
      (req : HttpRequest) (c : ℕ) (cs : Bytes)
      → (c == b'\r') ≡ false
      → (not (is_empty req.headers) && is_lws c) ≡ false
      → is_word c ≡ false
      → parse header_line_start req (c ∷ cs) ≡ accepted req' rest
      → ⊥
  no_line req c cs e k w h = rejected header_line_start req c cs (unfold consume in ground arith) h

  end_lines :
      (req : HttpRequest) (c : ℕ) (cs : Bytes)
      → (c == b'\r') ≡ true
      → parse header_line_start req (c ∷ cs) ≡ accepted req' rest
      → (c ∷ cs ≡ crlf rest) × (req' ≡ req)
  end_lines req c cs e h =
      let (t, r) =
        newline_3_inv cs req (
          continued header_line_start expecting_newline_3 req req c cs (unfold consume in rw e)
            h) in
      (ap₂ ◌∷◌ ((==_iff c b'\r').0 e) t, r)

  Lines-fold :
      (req : HttpRequest) (hs : Headers) (n v : Bytes) (c : ℕ) (cs blanks text tail : Bytes)
      → is_lws c ≡ true
      → all is_lws blanks ≡ true
      → all is_text text ≡ true
      → starts_blank text ≡ false
      → cs ≡ blanks ++ (text ++ crlf tail)
      → Lines req hs n (v ++ text) tail
      → Lines req hs n v (c ∷ cs)
  Lines-fold req hs n v c cs blanks text tail b k l m s r = record {
    folds = record { blank = c; blanks = blanks; text = text } ∷ r.folds;
    fields = r.fields;
    folds_are =
        (record { blank_lws = b; blanks_lws = k; text_plain = l; text_starts = m }, r.folds_are);
    fields_are = r.fields_are;
    text_is = ap (◌∷◌ c) (s ∙ ap (λ t. blanks ++ (text ++ crlf t)) r.text_is);
    says = r.says;
  }

  Lines-field :
      (req : HttpRequest) (hs : Headers) (n v : Bytes) (c : ℕ) (cs m text tail tail' : Bytes)
      → is_word c ≡ true
      → all is_word m ≡ true
      → all is_text text ≡ true
      → cs ≡ m ++ (b':' ∷ b' ' ∷ tail)
      → tail ≡ text ++ crlf tail'
      → Lines req (hs ++ (n, v) ∷ []) (c ∷ m) text tail'
      → Lines req hs n v (c ∷ cs)
  Lines-field req hs n v c cs m text tail tail' w k l s t r = record {
    folds = [];
    fields = record { name = c ∷ m; value = text; folds = r.folds } ∷ r.fields;
    folds_are = tt;
    fields_are = (
      record {
        name_ne_nil = cons-ne-nil c m;
        name_word = rw w k;
        value_plain = l;
        folds_are = r.folds_are;
      },
      r.fields_are,
    );
    text_is =
        ap (◌∷◌ c) (s ∙ ap (λ x. m ++ (b':' ∷ b' ' ∷ x)) (t ∙ ap (λ x. text ++ crlf x) r.text_is));
    says = r.says ∙ ap (λ k. record req { headers = k }) (append_assoc (hs ++ (n, v) ∷ []) _ _);
  }

  shorter_fold :
      (cs blanks text tail : Bytes) → cs ≡ blanks ++ (text ++ crlf tail) → length tail ≤ length cs
  shorter_fold cs blanks text tail s =
      omega (
        arith,
        ap length s,
        length-append blanks (text ++ crlf tail),
        length-append text (crlf tail),
      )

  shorter_field :
      (cs m text tail tail' : Bytes)
      → cs ≡ m ++ (b':' ∷ b' ' ∷ tail)
      → tail ≡ text ++ crlf tail'
      → length tail' ≤ length cs
  shorter_field cs m text tail tail' s t = omega (
    arith,
    ap length s,
    ap length t,
    length-append m (b':' ∷ b' ' ∷ tail),
    length-append text (crlf tail'),
  )

  Lines-sound :
      (fuel : ℕ) (input : Bytes) (req : HttpRequest) (hs : Headers) (n v : Bytes)
      → length input < fuel
      → parse header_line_start (with_header req hs n v) input ≡ accepted req' rest
      → Lines req hs n v input
  Lines-sound zero input req hs n v lt h = absurd (omega arith)
  Lines-sound (suc f) [] req hs n v lt h = absurd (not_finished _ _ h)
  Lines-sound (suc f) (c ∷ cs) req hs n v lt h = elim (Bool-cases (c == b'\r')) [
    | inl e ↦
        let (t, r) = end_lines (with_header req hs n v) c cs e h in
        record {
          folds = [];
          fields = [];
          folds_are = tt;
          fields_are = tt;
          text_is = t;
          says = rw append-nil r;
        }
    | inr e ↦ elim (Bool-cases (is_lws c)) [
      | inl b ↦
          let base = with_header req hs n v in
          let (blanks, text, tail, k, l, m, s, p) =
            lws_inv cs req hs n v (
              continued header_line_start header_lws base base c cs (lws_start req hs n v c b) h) in
          let short = shorter_fold cs blanks text tail s in
          Lines-fold req hs n v c cs blanks text tail b k l m s
            (Lines-sound f tail req hs n (v ++ text) (omega arith) p)
      | inr b ↦ elim (Bool-cases (is_word c)) [
        | inl w ↦
            let base = with_header req hs n v in
            let (m, tail, k, s, p) =
              name_inv cs req (hs ++ (n, v) ∷ []) (c ∷ []) [] (
                continued header_line_start header_name base _ c cs (first_name_byte base c w) h) in
            let (text, tail', l, t, q) = value_inv tail req (hs ++ (n, v) ∷ []) (c ∷ m) [] p in
            let short = shorter_field cs m text tail tail' s t in
            Lines-field req hs n v c cs m text tail tail' w k l s t
              (Lines-sound f tail' req (hs ++ (n, v) ∷ []) (c ∷ m) text (omega arith) q)
        | inr w ↦
            absurd (no_line (with_header req hs n v) c cs e (rw (is_empty-concat hs (n, v)) b) w h)
      ]
    ]
  ]

  -- The header lines of a request that has no header yet.
  pub first_lines_sound :
      (input : Bytes) (req : HttpRequest)
      → is_empty req.headers ≡ true
      → parse header_line_start req input ≡ accepted req' rest
      → (fields : List Field) × All IsField fields
        × (input ≡ write_fields fields (crlf rest))
        × (req' ≡ record req { headers = req.headers ++ map header_of fields })
  first_lines_sound [] req o h = absurd (not_finished _ _ h)
  first_lines_sound (c ∷ cs) req o h = elim (Bool-cases (c == b'\r')) [
    | inl e ↦ let (t, r) = end_lines req c cs e h in ([], tt, t, rw append-nil r)
    | inr e ↦ elim (Bool-cases (is_word c)) [
      | inl w ↦
          let (m, tail, k, s, p) =
            name_inv cs req req.headers (c ∷ []) []
              (continued header_line_start header_name req _ c cs (first_name_byte req c w) h) in
          let (text, tail', l, t, q) = value_inv tail req req.headers (c ∷ m) [] p in
          let r =
            Lines-sound (suc (length tail')) tail' req req.headers (c ∷ m) text (omega arith) q in
          (
            record { name = c ∷ m; value = text; folds = r.folds } ∷ r.fields,
            (
              record {
                name_ne_nil = cons-ne-nil c m;
                name_word = rw w k;
                value_plain = l;
                folds_are = r.folds_are;
              },
              r.fields_are,
            ),
            ap (◌∷◌ c)
                (s ∙ ap (λ x. m ++ (b':' ∷ b' ' ∷ x)) (t ∙ ap (λ x. text ++ crlf x) r.text_is)),
            r.says ∙ ap (λ k. record req { headers = k }) (append_assoc req.headers _ _),
          )
      | inr w ↦ absurd (no_line req c cs e (rw o) w h)
    ]
  ]
