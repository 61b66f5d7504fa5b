-- ===== src/RequestParser/Safe.antt =====
-- The parser never touches the last header of an empty vector.
use mathlib.Core.List.{concat-ne-nil}
use cs_3_boost_echo_static_s.Base.{
  false, inl, inr, Option-cases, Bool-cases, ℕ, ◌≡◌, ◌≢◌, refl, some, none, Option, [], ◌∷◌, ◌++◌,
  Bytes, arith,
}
use cs_3_boost_echo_static_s.Http.{Headers, HttpRequest}
use cs_3_boost_echo_static_s.RequestParser.{
  State, header_line_start, header_lws, header_name, space_before_header_value, header_value,
  Consumed, Parsed, is_determinate, is_empty, push_first, push_second, consume, parse,
}

-- The states that are reached behind the first byte of a header have a header to write to.
abbrev pub IsReady : State → Headers → Type 0
IsReady header_lws hs = hs ≢ []
IsReady header_name hs = hs ≢ []
IsReady space_before_header_value hs = hs ≢ []
IsReady header_value hs = hs ≢ []
IsReady _ hs = Unit

abbrev Fine : Option Consumed → Type 0
Fine none = ⊥
Fine (some r) = IsReady r.state r.req.headers

-- A write to the last header of a vector that is not empty.
push_first-some :
    (c : ℕ) (hs : Headers) → hs ≢ [] → (r : Headers) × (push_first c hs ≡ some r) × (r ≢ [])
unfolding push_first
push_first-some c [] h = absurd (h refl)
push_first-some c ((n, v) ∷ []) h = ((n ++ c ∷ [], v) ∷ [], refl, cc)
push_first-some c (x ∷ g ∷ hs) h =
    let (r, e, n) = push_first-some c (g ∷ hs) (cc) in (x ∷ r, rw (e, push_first), cc)

push_second-some :
    (c : ℕ) (hs : Headers) → hs ≢ [] → (r : Headers) × (push_second c hs ≡ some r) × (r ≢ [])
unfolding push_second
push_second-some c [] h = absurd (h refl)
push_second-some c ((n, v) ∷ []) h = ((n, v ++ c ∷ []) ∷ [], refl, cc)
push_second-some c (x ∷ g ∷ hs) h =
    let (r, e, n) = push_second-some c (g ∷ hs) (cc) in (x ∷ r, rw (e, push_second), cc)

is_empty-ne : (hs : Headers) → is_empty hs ≡ false → hs ≢ []
is_empty-ne [] h = cc
is_empty-ne (x ∷ hs) h = cc

consume-Fine :
    (s : State) (req : HttpRequest) (c : ℕ) → IsReady s req.headers → Fine (consume s req c)
unfolding consume
consume-Fine header_name req c h =
    let (r, e, n) = push_first-some c req.headers h in rw e (ground arith)
consume-Fine header_line_start req c h =
    let (r, e, n) =
      push_first-some c (req.headers ++ ([], []) ∷ []) (concat-ne-nil ([], []) req.headers) in
    rw e (ground (arith, is_empty-ne req.headers))
consume-Fine header_lws req c h =
    let (r, e, n) = push_second-some c req.headers h in rw e (ground arith)
consume-Fine header_value req c h =
    let (r, e, n) = push_second-some c req.headers h in rw e (ground arith)
consume-Fine _ req c h = ground arith

-- From a state that is ready for it, `parse` has no undefined behaviour, on any input.
pub parse-ne-none :
    (input : Bytes) (s : State) (req : HttpRequest)
    → IsReady s req.headers
    → (p : Parsed) × (parse s req input ≡ some p) × IsReady p.state p.req.headers
unfolding parse
parse-ne-none [] s req h = (_, refl, h)
parse-ne-none (c ∷ input) s req h = elim (Option-cases (consume s req c)) [
  | inl e ↦ absurd (rw e at (consume-Fine s req c h))
  | inr (r, e) ↦
      let ready = rw e at (consume-Fine s req c h) in
      elim (Bool-cases (is_determinate r.result)) [
        | inl d ↦ (
          record { result = r.result; state = r.state; req = r.req; rest = input },
          rw (e, parse) (rw d),
          ready,
        )
        | inr d ↦
            let (p, k, i) = parse-ne-none input r.state r.req ready in
            (p, rw (e, parse) (rw d k), i)
      ]
]
