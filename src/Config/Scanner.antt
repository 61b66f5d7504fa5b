-- ===== src/Config/Scanner.antt =====
-- The next token of a stream, described piece by piece: blanks, a mark, a comment, a quoted string or a
-- word; without the states, the counters and the bytes put back of `ParseToken`.
pub mod Pieces
pub mod Refines
use cs_3_boost_echo_static_s.Base.{
  split_at, ℕ, zero, suc, Bool, true, false, not, ◌&&◌, ◌||◌, List, [], ◌∷◌, ◌++◌, Bytes, Option,
  none, some, ◌==◌, if◌then◌else◌,
}
use cs_3_boost_echo_static_s.Config.Lexer.{
  TokenType, normal, start_block, end_block, comment, statement_end, eof, error, is_blank,
  ends_normal, Token,
}
use cs_3_boost_echo_static_s.Config.Tokens.Reading.{token}

-- The text up to and with the first quote that has no backslash before it, and the rest; the flag says
-- that a backslash stands before the text.
unfoldable pub split_quoted : ℕ → Bool → Bytes → Option (Bytes × Bytes)
split_quoted q escaped [] = none
split_quoted q escaped (c ∷ cs) =
    let later = split_quoted q (c == b'\\') cs in
    if (c == q) && not escaped
    then some (c ∷ [], cs)
    else (elim later [ none ↦ none | some (text, rest) ↦ some (c ∷ text, rest) ])

abbrev pub ends_line : ℕ → Bool
ends_line c = c == b'\n' || c == b'\r'

-- The token that begins with `v`, by where the text ends behind it.
abbrev pub word_token : Bytes → Bytes × Bytes → Token
word_token v (text, []) = token eof (v ++ text) []
word_token v (text, d ∷ rest) = token normal (v ++ text) (d ∷ rest)

abbrev pub comment_token : Bytes → Bytes × Bytes → Token
comment_token v (text, []) = token eof (v ++ text) []
comment_token v (text, d ∷ rest) = token comment (v ++ text) rest

abbrev pub quoted_token : Bytes → Bytes → Option (Bytes × Bytes) → Token
quoted_token v input none = token error (v ++ input) []
quoted_token v input (some (text, rest)) = token normal (v ++ text) rest

unfoldable pub next_token : Bytes → Token
next_token [] = token eof [] []
next_token (c ∷ cs) =
    let behind_blank = next_token cs in
    if is_blank c
    then behind_blank
    else if c == b'{'
    then token start_block (c ∷ []) cs
    else if c == b'}'
    then token end_block (c ∷ []) cs
    else if c == b';'
    then token statement_end (c ∷ []) cs
    else if c == b'#'
    then comment_token (c ∷ []) (split_at ends_line cs)
    else if c == b'\'' || c == b'"'
    then quoted_token (c ∷ []) cs (split_quoted c false cs)
    else word_token (c ∷ []) (split_at ends_normal cs)

-- A token without what follows it, and the row of the tokens of a stream.
abbrev pub Lexeme : Type 0
Lexeme = TokenType × Bytes

unfoldable pub lexemes : ℕ → Bytes → List Lexeme
lexemes zero input = []
lexemes (suc bound) input = let t = next_token input in (t.type, t.value) ∷ lexemes bound t.rest
