-- ===== src/Older/ParserHeader/Stops.antt =====
-- Where the loop of request_parser.h stops, whatever `consume` is.
use cs_3_boost_echo_static_s.Base.{
  ℕ, ◌≡◌, ◌↔◌, refl, subst, Option, none, some, Option-cases, inl, inr, [], ◌∷◌, ◌++◌, Bytes, true,
  append-nil, ◌∙◌,
}
use cs_3_boost_echo_static_s.Http.{HttpRequest}
use cs_3_boost_echo_static_s.Older.ParserHeader.{ParserClass, parse_with}
use cs_3_boost_echo_static_s.RequestParser.{
  Verdict, complete, invalid, indeterminate, is_determinate,
}

module _ {S : Type 0} (members : ParserClass S) where
  -- Bytes for each of which `consume` asks for more, and what it leaves behind the last of them.
  pub data Asks : S → HttpRequest → Bytes → S → HttpRequest → Type 0 where
    no_byte : {s : S} {req : HttpRequest} → Asks s req [] s req
    one_byte :
        {s s₁ s₂ : S} {req req₁ req₂ : HttpRequest} {c : ℕ} {input : Bytes}
        → members.consume s req c ≡ some (indeterminate, s₁, req₁)
        → Asks s₁ req₁ input s₂ req₂
        → Asks s req (c ∷ input) s₂ req₂

  -- What a caller has: a request for more behind the last byte, the first answer that is true or false
  -- with the input behind its byte, or undefined behaviour at the first byte where `consume` has it.
  pub data Stops
      : S → HttpRequest → Bytes → Option (Verdict × S × HttpRequest × Bytes) → Type 0 where
    at_end :
        {s s₁ : S} {req req₁ : HttpRequest} {input : Bytes}
        → Asks s req input s₁ req₁
        → Stops s req input (some (indeterminate, s₁, req₁, []))
    at_answer :
        {s s₁ s₂ : S} {req req₁ req₂ : HttpRequest} {before : Bytes} {c : ℕ} {result : Verdict}
        (rest : Bytes)
        → Asks s req before s₁ req₁
        → members.consume s₁ req₁ c ≡ some (result, s₂, req₂)
        → is_determinate result ≡ true
        → Stops s req (before ++ c ∷ rest) (some (result, s₂, req₂, rest))
    at_undefined :
        {s s₁ : S} {req req₁ : HttpRequest} {before : Bytes} {c : ℕ} (rest : Bytes)
        → Asks s req before s₁ req₁
        → members.consume s₁ req₁ c ≡ none
        → Stops s req (before ++ c ∷ rest) none

  Stops-next :
      {s s₁ : S} {req req₁ : HttpRequest} {c : ℕ} {input : Bytes}
      {o : Option (Verdict × S × HttpRequest × Bytes)}
      → members.consume s req c ≡ some (indeterminate, s₁, req₁)
      → Stops s₁ req₁ input o
      → Stops s req (c ∷ input) o
  Stops-next e (at_end a) = at_end (one_byte e a)
  Stops-next e (at_answer rest a f d) = at_answer rest (one_byte e a) f d
  Stops-next e (at_undefined rest a f) = at_undefined rest (one_byte e a) f

  parse_with-skip :
      {s s₁ : S} {req req₁ : HttpRequest} {before : Bytes} (input : Bytes)
      → Asks s req before s₁ req₁
      → parse_with members s req (before ++ input) ≡ parse_with members s₁ req₁ input
  unfolding parse_with
  parse_with-skip input no_byte = refl
  parse_with-skip input (one_byte e a) = rw (e, parse_with) (parse_with-skip input a)

  parse_with-Stops :
      (s : S) (req : HttpRequest) (input : Bytes)
      → Stops s req input (parse_with members s req input)
  unfolding parse_with
  parse_with-Stops s req [] = at_end no_byte
  parse_with-Stops s req (c ∷ input) = elim (Option-cases (members.consume s req c)) [
    | inl e ↦ rw (e, parse_with) (at_undefined input no_byte e)
    | inr ((complete, s', req'), e) ↦ rw (e, parse_with) (at_answer input no_byte e refl)
    | inr ((invalid, s', req'), e) ↦ rw (e, parse_with) (at_answer input no_byte e refl)
    | inr ((indeterminate, s', req'), e) ↦
        rw (e, parse_with) (Stops-next e (parse_with-Stops s' req' input))
  ]

  Stops-parse_with :
      {s : S} {req : HttpRequest} {input : Bytes} {o : Option (Verdict × S × HttpRequest × Bytes)}
      → Stops s req input o
      → parse_with members s req input ≡ o
  unfolding parse_with
  Stops-parse_with (at_end a) = rw append-nil at (parse_with-skip [] a)
  Stops-parse_with (at_answer rest a e d) = parse_with-skip _ a ∙ rw (e, parse_with) (rw d refl)
  Stops-parse_with (at_undefined rest a e) = parse_with-skip _ a ∙ rw (e, parse_with) refl

  -- Whatever `consume` does, the loop of the older header gives a result exactly if that is: the first answer
  -- that is true or false, with the input behind its byte; undefined behaviour, if `consume` has it
  -- before such an answer; or a request for more, if every byte is asked behind.
  pub parse_with-Stops_iff :
      (s : S) (req : HttpRequest) (input : Bytes) (o : Option (Verdict × S × HttpRequest × Bytes))
      → Stops s req input o ↔ (parse_with members s req input ≡ o)
  parse_with-Stops_iff s req input o =
      (Stops-parse_with, λ e. subst (Stops s req input) e (parse_with-Stops s req input))
