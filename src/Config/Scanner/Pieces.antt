-- ===== src/Config/Scanner/Pieces.antt =====
-- The loop of `ParseToken`, in each of its states.
use cs_3_boost_echo_static_s.Base.{
  split_at, ℕ, ◌≡◌, refl, ◌∙◌, inl, inr, true, false, not, ◌&&◌, Bool, Bool-cases, [], ◌∷◌, ◌++◌,
  append-nil, append_assoc, Bytes, Option, none, some, arith, ◌==◌,
}
use cs_3_boost_echo_static_s.Config.Lexer.{
  single_quote, double_quote, in_comment, in_normal, Locals, round_in, end_of_file, ends_normal,
  scan,
}
use cs_3_boost_echo_static_s.Config.Tokens.Reading.{
  Counted, count_after, Counted-count_after, Counted-eq_pos,
}
use cs_3_boost_echo_static_s.Config.Scanner.{
  split_quoted, ends_line, word_token, comment_token, quoted_token,
}

word_token-cons :
    (v : Bytes) (c : ℕ) (p : Bytes × Bytes)
    → word_token (v ++ c ∷ []) p ≡ word_token v (c ∷ p.0, p.1)
word_token-cons v c (text, []) = rw (append_assoc v (c ∷ []) text) refl
word_token-cons v c (text, d ∷ rest) = rw (append_assoc v (c ∷ []) text) refl

comment_token-cons :
    (v : Bytes) (c : ℕ) (p : Bytes × Bytes)
    → comment_token (v ++ c ∷ []) p ≡ comment_token v (c ∷ p.0, p.1)
comment_token-cons v c (text, []) = rw (append_assoc v (c ∷ []) text) refl
comment_token-cons v c (text, d ∷ rest) = rw (append_assoc v (c ∷ []) text) refl

pub scan-word_token :
    (cs : Bytes) (l : Locals)
    → l.state ≡ in_normal
    → scan l cs ≡ word_token l.value (split_at ends_normal cs)
unfolding scan round_in end_of_file split_at
scan-word_token [] l s = rw (s, append-nil l.value) refl
scan-word_token (c ∷ cs) l s = ground (
  arith,
  append-nil l.value,
  scan-word_token cs (record l { value = l.value ++ c ∷ [] }) s,
  word_token-cons l.value c (split_at ends_normal cs),
)

pub scan-comment_token :
    (cs : Bytes) (l : Locals)
    → l.state ≡ in_comment
    → scan l cs ≡ comment_token l.value (split_at ends_line cs)
unfolding scan round_in end_of_file split_at
scan-comment_token [] l s = rw (s, append-nil l.value) refl
scan-comment_token (c ∷ cs) l s = ground (
  arith,
  append-nil l.value,
  scan-comment_token cs (record l { value = l.value ++ c ∷ [] }) s,
  comment_token-cons l.value c (split_at ends_line cs),
)

-- One more byte in front of the rest of a quoted string.
abbrev pub longer : ℕ → Option (Bytes × Bytes) → Option (Bytes × Bytes)
longer c none = none
longer c (some (text, rest)) = some (c ∷ text, rest)

quoted_token-longer :
    (v : Bytes) (c : ℕ) (cs : Bytes) (o : Option (Bytes × Bytes))
    → quoted_token (v ++ c ∷ []) cs o ≡ quoted_token v (c ∷ cs) (longer c o)
quoted_token-longer v c cs none = rw (append_assoc v (c ∷ []) cs) refl
quoted_token-longer v c cs (some (text, rest)) = rw (append_assoc v (c ∷ []) text) refl

module _ (q c : ℕ) (cs : Bytes) (escaped : Bool) where
  pub split_quoted_close :
      ((c == q) && not escaped) ≡ true → split_quoted q escaped (c ∷ cs) ≡ some (c ∷ [], cs)
  unfolding split_quoted
  split_quoted_close h = ground arith

  pub split_quoted_char :
      ((c == q) && not escaped) ≡ false
      → split_quoted q escaped (c ∷ cs) ≡ longer c (split_quoted q (c == b'\\') cs)
  unfolding split_quoted
  split_quoted_char h = ground arith

scan-single_again :
    (l : Locals) (c : ℕ) (cs : Bytes) (escaped : Bool)
    → l.state ≡ single_quote
    → Counted escaped l.count_prev_single
    → ((c == b'\'') && not escaped) ≡ false
    → scan l (c ∷ cs)
      ≡ scan
          (record l {
            count_prev_single = count_after c l.count_prev_single;
            value = l.value ++ c ∷ [];
          })
          cs
unfolding scan round_in
scan-single_again l c cs escaped s h k =
    ground (arith, Counted-eq_pos escaped l.count_prev_single h)

scan-double_again :
    (l : Locals) (c : ℕ) (cs : Bytes) (escaped : Bool)
    → l.state ≡ double_quote
    → Counted escaped l.count_prev_double
    → ((c == b'"') && not escaped) ≡ false
    → scan l (c ∷ cs)
      ≡ scan
          (record l {
            count_prev_double = count_after c l.count_prev_double;
            value = l.value ++ c ∷ [];
          })
          cs
unfolding scan round_in
scan-double_again l c cs escaped s h k =
    ground (arith, Counted-eq_pos escaped l.count_prev_double h)

pub scan-single_quoted :
    (cs : Bytes) (l : Locals) (escaped : Bool)
    → l.state ≡ single_quote
    → Counted escaped l.count_prev_single
    → scan l cs ≡ quoted_token l.value cs (split_quoted b'\'' escaped cs)
unfolding scan round_in end_of_file
scan-single_quoted [] l escaped s h = unfold split_quoted in rw (s, append-nil l.value) refl
scan-single_quoted (c ∷ cs) l escaped s h = elim (Bool-cases ((c == b'\'') && not escaped)) [
  | inl e ↦
      ground (
        arith,
        Counted-eq_pos escaped l.count_prev_single h,
        split_quoted_close b'\'' c cs escaped e,
      )
  | inr e ↦
      let m = record l {
        count_prev_single = count_after c l.count_prev_single;
        value = l.value ++ c ∷ [];
      } in
      scan-single_again l c cs escaped s h e
      ∙ scan-single_quoted cs m (c == b'\\') s (Counted-count_after escaped c l.count_prev_single h)
      ∙ rw (split_quoted_char b'\'' c cs escaped e) (quoted_token-longer l.value c cs _)
]

pub scan-double_quoted :
    (cs : Bytes) (l : Locals) (escaped : Bool)
    → l.state ≡ double_quote
    → Counted escaped l.count_prev_double
    → scan l cs ≡ quoted_token l.value cs (split_quoted b'"' escaped cs)
unfolding scan round_in end_of_file
scan-double_quoted [] l escaped s h = unfold split_quoted in rw (s, append-nil l.value) refl
scan-double_quoted (c ∷ cs) l escaped s h = elim (Bool-cases ((c == b'"') && not escaped)) [
  | inl e ↦
      ground (
        arith,
        Counted-eq_pos escaped l.count_prev_double h,
        split_quoted_close b'"' c cs escaped e,
      )
  | inr e ↦
      let m = record l {
        count_prev_double = count_after c l.count_prev_double;
        value = l.value ++ c ∷ [];
      } in
      scan-double_again l c cs escaped s h e
      ∙ scan-double_quoted cs m (c == b'\\') s (Counted-count_after escaped c l.count_prev_double h)
      ∙ rw (split_quoted_char b'"' c cs escaped e) (quoted_token-longer l.value c cs _)
]
