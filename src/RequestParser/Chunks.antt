-- ===== src/RequestParser/Chunks.antt =====
-- Input may come in pieces: the parser goes on where it stopped.
use cs_3_boost_echo_static_s.Base.{
  ◌≡◌, refl, some, none, Option, [], ◌∷◌, ◌++◌, Bytes, inl, inr, Option-cases, Bool-cases,
  if◌then◌else◌,
}
use cs_3_boost_echo_static_s.Http.{HttpRequest}
use cs_3_boost_echo_static_s.RequestParser.{State, Parsed, is_determinate, consume, parse}

-- What a caller has after a second piece: nothing more is read once there is an answer.
abbrev pub feed : Option Parsed → Bytes → Option Parsed
feed none more = none
feed (some p) more =
    if is_determinate p.result
    then some (record p { rest = p.rest ++ more })
    else parse p.state p.req more

-- Parsing two pieces one after the other is the same as parsing them at once.
pub parse-append :
    (s : State) (req : HttpRequest) (input more : Bytes)
    → parse s req (input ++ more) ≡ feed (parse s req input) more
unfolding parse
parse-append s req [] more = refl
parse-append s req (c ∷ input) more = elim (Option-cases (consume s req c)) [
  | inl e ↦ rw (e, parse)
  | inr (r, e) ↦ elim (Bool-cases (is_determinate r.result)) [
    | inl d ↦ rw (e, parse) (rw d (rw d))
    | inr d ↦ rw (e, parse) (rw d (parse-append r.state r.req input more))
  ]
]
