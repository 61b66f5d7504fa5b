-- ===== src/RequestParser/Viable.antt =====
-- What the three answers of the parser say of the input.
use mathlib.Core.Option.{some-injective}
use cs_3_boost_echo_static_s.Base.{
  ℕ, ◌≡◌, refl, sym, ◌∙◌, ap, inl, inr, Bool-cases, Option, none, some, Option-cases, [], ◌∷◌, ◌++◌,
  Bytes, arith, codes, true,
}
use cs_3_boost_echo_static_s.Http.{HttpRequest, empty_request}
use cs_3_boost_echo_static_s.RequestParser.{
  State, method_start, method, uri_start, uri, http_version_h, http_version_t_1, http_version_t_2,
  http_version_p, http_version_slash, http_version_major_start, http_version_major,
  http_version_minor_start, http_version_minor, expecting_newline_1, header_line_start, header_lws,
  header_name, space_before_header_value, header_value, expecting_newline_2, expecting_newline_3,
  Verdict, complete, invalid, indeterminate, Consumed, Parsed, is_determinate, push_first,
  push_second, consume, parse, running, initial_state,
}
use cs_3_boost_echo_static_s.RequestParser.Chunks.{feed, parse-append}
use cs_3_boost_echo_static_s.RequestParser.Complete.{accepted, parse-write_request}
use cs_3_boost_echo_static_s.RequestParser.Grammar.{RequestText, IsRequest, write_request}
use cs_3_boost_echo_static_s.RequestParser.Safe.{parse-ne-none}
use cs_3_boost_echo_static_s.RequestParser.Sound.{parse-accepted_iff}

-- A text that ends a request from each state.
unfoldable completion : State → Bytes
completion method_start = codes "G  HTTP/1.0\r\n\r\n"
completion method = codes "  HTTP/1.0\r\n\r\n"
completion uri_start = codes "/ HTTP/1.0\r\n\r\n"
completion uri = codes " HTTP/1.0\r\n\r\n"
completion http_version_h = codes "HTTP/1.0\r\n\r\n"
completion http_version_t_1 = codes "TTP/1.0\r\n\r\n"
completion http_version_t_2 = codes "TP/1.0\r\n\r\n"
completion http_version_p = codes "P/1.0\r\n\r\n"
completion http_version_slash = codes "/1.0\r\n\r\n"
completion http_version_major_start = codes "1.0\r\n\r\n"
completion http_version_major = codes ".0\r\n\r\n"
completion http_version_minor_start = codes "0\r\n\r\n"
completion http_version_minor = codes "\r\n\r\n"
completion expecting_newline_1 = codes "\n\r\n"
completion header_line_start = codes "\r\n"
completion header_lws = codes "\r\n\r\n"
completion header_name = codes ": \r\n\r\n"
completion space_before_header_value = codes " \r\n\r\n"
completion header_value = codes "\r\n\r\n"
completion expecting_newline_2 = codes "\n\r\n"
completion expecting_newline_3 = codes "\n"

parse-completion :
    (s : State) (req : HttpRequest)
    → (req' : HttpRequest) × (parse s req (completion s) ≡ accepted req' [])
unfolding completion parse running
parse-completion method_start req = (_, refl)
parse-completion method req = (_, refl)
parse-completion uri_start req = (_, refl)
parse-completion uri req = (_, refl)
parse-completion http_version_h req = (_, refl)
parse-completion http_version_t_1 req = (_, refl)
parse-completion http_version_t_2 req = (_, refl)
parse-completion http_version_p req = (_, refl)
parse-completion http_version_slash req = (_, refl)
parse-completion http_version_major_start req = (_, refl)
parse-completion http_version_major req = (_, refl)
parse-completion http_version_minor_start req = (_, refl)
parse-completion http_version_minor req = (_, refl)
parse-completion expecting_newline_1 req = (_, refl)
parse-completion header_line_start req = (_, refl)
parse-completion header_lws req = (_, refl)
parse-completion header_name req = (_, refl)
parse-completion space_before_header_value req = (_, refl)
parse-completion header_value req = (_, refl)
parse-completion expecting_newline_2 req = (_, refl)
parse-completion expecting_newline_3 req = (_, refl)

-- A request is complete only behind the newline of an empty line.
abbrev Ends : Option Consumed → Type 0
Ends none = Unit
Ends (some r) = r.result ≡ complete → r.state ≡ expecting_newline_3

consume-Ends : (s : State) (req : HttpRequest) (c : ℕ) → Ends (consume s req c)
unfolding consume
consume-Ends header_name req c = elim (Option-cases (push_first c req.headers)) [
  | inl e ↦ rw e (ground arith)
  | inr (r, e) ↦ rw e (ground arith)
]
consume-Ends header_line_start req c =
    elim (Option-cases (push_first c (req.headers ++ ([], []) ∷ []))) [
      | inl e ↦ rw e (ground arith)
      | inr (r, e) ↦ rw e (ground arith)
    ]
consume-Ends header_lws req c = elim (Option-cases (push_second c req.headers)) [
  | inl e ↦ rw e (ground arith)
  | inr (r, e) ↦ rw e (ground arith)
]
consume-Ends header_value req c = elim (Option-cases (push_second c req.headers)) [
  | inl e ↦ rw e (ground arith)
  | inr (r, e) ↦ rw e (ground arith)
]
consume-Ends _ req c = ground arith

parse-Ends :
    (input : Bytes) (s : State) (req : HttpRequest) (p : Parsed)
    → parse s req input ≡ some p
    → p.result ≡ complete
    → p.state ≡ expecting_newline_3
unfolding parse
parse-Ends [] s req p h k = absurd (cc)
parse-Ends (c ∷ input) s req p h k =
    let ends = consume-Ends s req c in
    elim (Option-cases (consume s req c)) [
      | inl e ↦ absurd (cc (rw (e, parse) at h))
      | inr (r, e) ↦ elim (Bool-cases (is_determinate r.result)) [
        | inl d ↦
            let same = some-injective _ _ (rw d at (rw (e, parse) at h)) in
            sym (ap (λ x. x.state) same) ∙ rw e at ends (ap (λ x. x.result) same ∙ k)
        | inr d ↦ parse-Ends input r.state r.req p (rw d at (rw (e, parse) at h)) k
      ]
    ]

-- A well-formed request in front of `rest`.
abbrev pub IsText : Bytes → Bytes → Type 0
IsText input rest = (t : RequestText) × IsRequest t × (input ≡ write_request t rest)

-- What an answer says of the whole input: it is a request in front of the rest; or no continuation of
-- it begins with a request; or it does not begin with a request, and a continuation of it is one.
abbrev pub Means : Verdict → Bytes → Bytes → Type 0
Means complete input rest = IsText input rest
Means invalid input rest = (more rest' : Bytes) → ¬ IsText (input ++ more) rest'
Means indeterminate input rest =
    ((rest' : Bytes) → ¬ IsText input rest') × ((more : Bytes) × IsText (input ++ more) [])

abbrev answer_of : Option Parsed → Option Verdict
answer_of none = none
answer_of (some p) = some p.result

-- Input that begins with a request is answered by complete.
answers_complete :
    (t : RequestText) (rest input : Bytes)
    → IsRequest t
    → input ≡ write_request t rest
    → answer_of (parse initial_state empty_request input) ≡ some complete
answers_complete t rest input h e =
    ap (λ x. answer_of (parse initial_state empty_request x)) e
    ∙ ap answer_of (parse-write_request t empty_request rest h)

module _ (input more : Bytes) (p : Parsed)
    (e : parse initial_state empty_request input ≡ some p) where
  -- A final answer stays, whatever comes behind.
  answer-final :
      is_determinate p.result ≡ true
      → answer_of (parse initial_state empty_request (input ++ more)) ≡ some p.result
  answer-final d =
      ap answer_of (parse-append initial_state empty_request input more) ∙ rw (e, feed) (rw d refl)

  -- Without a final answer the parser goes on with what comes behind.
  goes_on_with :
      p.result ≡ indeterminate
      → parse initial_state empty_request (input ++ more) ≡ parse p.state p.req more
  goes_on_with d = parse-append initial_state empty_request input more ∙ rw (e, feed) (rw d refl)

parse-Means_of :
    (v : Verdict) (input : Bytes) (p : Parsed)
    → parse initial_state empty_request input ≡ some p
    → p.result ≡ v
    → Means v input p.rest
parse-Means_of complete input p e v =
    let (t, h, text, _) =
      (parse-accepted_iff input p.rest empty_request p.req refl).0
        (e ∙ cc (v, parse-Ends input initial_state empty_request p e v)) in
    (t, h, text)
parse-Means_of invalid input p e v = λ more rest' (t, h, text).
    cc (answers_complete t rest' (input ++ more) h text, answer-final input more p e (rw v refl), v)
parse-Means_of indeterminate input p e v =
    let more = completion p.state in
    let (req', k) = parse-completion p.state p.req in
    let (t, h, text, _) =
      (parse-accepted_iff (input ++ more) [] empty_request req' refl).0
        (goes_on_with input more p e v ∙ k) in
    (
      λ rest' (t', h', text'). cc (answers_complete t' rest' input h' text', ap answer_of e, v),
      (more, (t, h, text)),
    )

-- The parser answers every input, and each answer is right about it: a complete input is a well-formed
-- request in front of the rest; no continuation of an invalid input begins with one; and an
-- indeterminate input does not begin with one, but some continuation of it is one.
pub parse-Means :
    (input : Bytes)
    → (p : Parsed) × (parse initial_state empty_request input ≡ some p)
      × Means p.result input p.rest
parse-Means input =
    let (p, e, _) = parse-ne-none input initial_state empty_request tt in
    (p, e, parse-Means_of p.result input p e refl)
