-- ===== src/RequestParser/Uri.antt =====
-- What the parser leaves in the URI of a request, whatever the input, complete or not.
pub mod Cut
use cs_3_boost_echo_static_s.Base.{
  ℕ, Bool, ◌≡◌, refl, sym, subst, ◌∙◌, inl, inr, true, false, ◌||◌, Option, none, some,
  Option-cases, Bool-cases, [], ◌∷◌, ◌++◌, append-nil, append_assoc, Bytes, arith, ◌==◌,
  if◌then◌else◌, split_at, split_at_here, split_at_later,
}
use cs_3_boost_echo_static_s.Base.Int.{int_of_char}
use cs_3_boost_echo_static_s.Http.{Headers, HttpRequest, empty_request}
use cs_3_boost_echo_static_s.RequestParser.Chars.{is_char, is_ctl, is_tspecial}
use cs_3_boost_echo_static_s.RequestParser.Complete.{parse-write_request}
use cs_3_boost_echo_static_s.RequestParser.Grammar.{RequestText, IsRequest, write_request}
use cs_3_boost_echo_static_s.RequestParser.Safe.{parse-ne-none}
use cs_3_boost_echo_static_s.RequestParser.{
  State, method_start, method, uri_start, uri, Consumed, Parsed, is_determinate, goes_on, no_word,
  push_first, push_second, consume, parse, initial_state, http_version_h, rejects, push_uri,
  push_method, header_line_start, header_lws, header_name, header_value, with_headers,
}

-- The bytes that end a URI, or make it invalid.
abbrev pub ends_uri : ℕ → Bool
ends_uri c = c == b' ' || is_ctl (int_of_char c)

-- What follows a method, up to the first byte that ends it; without a blank there is no URI.
unfoldable pub uri_behind : Bytes → Bytes
uri_behind [] = []
uri_behind (c ∷ cs) = let (text, _) = split_at ends_uri cs in if c == b' ' then text else []

-- The bytes behind a method and a blank, up to the first that ends a URI.
unfoldable pub uri_of : Bytes → Bytes
uri_of [] = []
uri_of (c ∷ cs) = let (_, rest) = split_at no_word cs in if no_word c then [] else uri_behind rest

-- The states behind the URI.
abbrev IsPast : State → Type 0
IsPast method_start = ⊥
IsPast method = ⊥
IsPast uri_start = ⊥
IsPast uri = ⊥
IsPast _ = Unit

-- The URI that a byte leaves, with the state.
abbrev Keeps : Bytes → Option Consumed → Type 0
Keeps u none = Unit
Keeps u (some r) = (r.req.uri ≡ u) × IsPast r.state

with_headers-Keeps :
    (s : State) (req : HttpRequest) (o : Option Headers)
    → IsPast s
    → Keeps req.uri (with_headers s req o)
with_headers-Keeps s req none h = tt
with_headers-Keeps s req (some hs) h = (refl, h)

consume-Keeps : (s : State) (req : HttpRequest) (c : ℕ) → IsPast s → Keeps req.uri (consume s req c)
unfolding consume
consume-Keeps method_start req c h = absurd h
consume-Keeps method req c h = absurd h
consume-Keeps uri_start req c h = absurd h
consume-Keeps uri req c h = absurd h
consume-Keeps header_line_start req c h =
    let k = with_headers-Keeps header_name req (push_first c (req.headers ++ ([], []) ∷ [])) tt in
    ground arith
consume-Keeps header_lws req c h =
    let k = with_headers-Keeps header_value req (push_second c req.headers) tt in ground arith
consume-Keeps header_name req c h =
    let k = with_headers-Keeps header_name req (push_first c req.headers) tt in ground arith
consume-Keeps header_value req c h =
    let k = with_headers-Keeps header_value req (push_second c req.headers) tt in ground arith
consume-Keeps _ req c h = ground arith

-- The URI behind a run of the parser.
abbrev pub Leaves : Bytes → Option Parsed → Type 0
Leaves u none = Unit
Leaves u (some p) = p.req.uri ≡ u

past-Leaves :
    (input : Bytes) (s : State) (req : HttpRequest) (u : Bytes)
    → req.uri ≡ u
    → IsPast s
    → Leaves u (parse s req input)
unfolding parse
past-Leaves [] s req u h k = h
past-Leaves (c ∷ input) s req u h k = elim (Option-cases (consume s req c)) [
  | inl e ↦ rw (e, parse) tt
  | inr (r, e) ↦
      let (same, past) = rw e at (consume-Keeps s req c k) in
      elim (Bool-cases (is_determinate r.result)) [
        | inl d ↦ rw (e, parse) (rw d (same ∙ h))
        | inr d ↦ rw (e, parse) (rw d (past-Leaves input r.state r.req u (same ∙ h) past))
      ]
]

-- One byte, by the state it leads to or the answer that it gives.
module _ (s : State) (req : HttpRequest) (c : ℕ) (input : Bytes) (u : Bytes) where
  Leaves-goes_on :
      (s' : State) (req' : HttpRequest)
      → consume s req c ≡ goes_on s' req'
      → Leaves u (parse s' req' input)
      → Leaves u (parse s req (c ∷ input))
  unfolding parse
  Leaves-goes_on s' req' e h = rw (e, parse) h

  Leaves-rejects :
      consume s req c ≡ rejects s req → req.uri ≡ u → Leaves u (parse s req (c ∷ input))
  unfolding parse
  Leaves-rejects e h = rw (e, parse) h

uri-Leaves :
    (input : Bytes) (req : HttpRequest)
    → Leaves (req.uri ++ (split_at ends_uri input).0) (parse uri req input)
unfolding split_at
uri-Leaves [] req = unfold parse in sym (append-nil req.uri)
uri-Leaves (c ∷ input) req = elim (Bool-cases (c == b' ')) [
  | inl e ↦ Leaves-goes_on uri req c input _ http_version_h req (unfold consume in ground arith) (
      past-Leaves input http_version_h req _
        (rw (split_at_here ends_uri c input (rw e refl)) (sym (append-nil req.uri))) tt)
  | inr e ↦ elim (Bool-cases (is_ctl (int_of_char c))) [
    | inl f ↦
        Leaves-rejects uri req c input _ (unfold consume in ground arith)
          (rw (split_at_here ends_uri c input (rw (e, f) refl)) (sym (append-nil req.uri)))
    | inr f ↦
        Leaves-goes_on uri req c input _ uri (push_uri req c) (unfold consume in ground arith) (
          rw (split_at_later ends_uri c input (rw (e, f) refl)) (
            rw (append_assoc req.uri (c ∷ []) (split_at ends_uri input).0) at
              (uri-Leaves input (push_uri req c))))
  ]
]

uri_behind_blank :
    (c : ℕ) (cs : Bytes) → (c == b' ') ≡ true → uri_behind (c ∷ cs) ≡ (split_at ends_uri cs).0
unfolding uri_behind
uri_behind_blank c cs e = rw (e, uri_behind) refl

uri_behind_other : (c : ℕ) (cs : Bytes) → (c == b' ') ≡ false → uri_behind (c ∷ cs) ≡ []
unfolding uri_behind
uri_behind_other c cs e = rw (e, uri_behind) refl

method-Leaves :
    (input : Bytes) (req : HttpRequest)
    → req.uri ≡ []
    → Leaves (uri_behind (split_at no_word input).1) (parse method req input)
unfolding split_at
method-Leaves [] req h = unfold parse uri_behind in h
method-Leaves (c ∷ input) req h = elim (Bool-cases (c == b' ')) [
  | inl e ↦ Leaves-goes_on method req c input _ uri req (unfold consume in ground arith) (
      rw (split_at_here no_word c input (blank c e)) (
        rw (uri_behind_blank c input e) (
          subst (λ u. Leaves (u ++ (split_at ends_uri input).0) (parse uri req input)) h
            (uri-Leaves input req))))
  | inr e ↦ elim (Bool-cases (no_word c)) [
    | inl f ↦
        Leaves-rejects method req c input _ (unfold consume in ground arith)
          (rw (split_at_here no_word c input f) (h ∙ sym (uri_behind_other c input e)))
    | inr f ↦
        Leaves-goes_on method req c input _ method (push_method req c)
          (unfold consume in ground arith)
          (rw (split_at_later no_word c input f) (method-Leaves input (push_method req c) h))
  ]
]
  where
    blank : (c : ℕ) → (c == b' ') ≡ true → no_word c ≡ true
    blank c e = unfold is_char is_ctl is_tspecial in ground arith

pub parse-Leaves : (input : Bytes) → Leaves (uri_of input) (parse initial_state empty_request input)
unfolding uri_of
parse-Leaves [] = unfold parse in refl
parse-Leaves (c ∷ input) = elim (Bool-cases (no_word c)) [
  | inl e ↦
      Leaves-rejects method_start empty_request c input _ (unfold consume in ground arith)
        (rw e refl)
  | inr e ↦
      Leaves-goes_on method_start empty_request c input _ method (push_method empty_request c)
        (unfold consume in ground arith)
        (rw e (method-Leaves input (push_method empty_request c) refl))
]

-- A parser at its beginning answers every input, complete or not, and leaves in the URI of the request what
-- stands between a method with a blank behind it and the next blank or control character, or the end of
-- the input; without such a method the URI is empty.
pub parse-uri_of :
    (input : Bytes)
    → (p : Parsed) × (parse initial_state empty_request input ≡ some p) × (p.req.uri ≡ uri_of input)
parse-uri_of input =
    let (p, e, _) = parse-ne-none input initial_state empty_request tt in
    (p, e, rw e at (parse-Leaves input))

-- The URI of a well-formed request, whatever follows it.
pub uri_of-write_request :
    (t : RequestText) (rest : Bytes) → IsRequest t → uri_of (write_request t rest) ≡ t.uri
uri_of-write_request t rest h =
    sym (rw (parse-write_request t empty_request rest h) at (parse-Leaves (write_request t rest)))
