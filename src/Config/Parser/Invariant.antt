-- ===== src/Config/Parser/Invariant.antt =====
-- What the stack of `Parse` holds between two tokens.
use cs_3_boost_echo_static_s.Base.{
  ◌≡◌, ◌≢◌, refl, true, List, [], ◌∷◌, ◌++◌, Bytes, some, arith, All, All-append,
}
use cs_3_boost_echo_static_s.Config.{
  NginxConfig, nil, cons, NginxConfigStatement, statement, ChildBlock, null, block,
}
use cs_3_boost_echo_static_s.Config.Frames.{emplace_back, update_back, reset_child}
use cs_3_boost_echo_static_s.Config.Lexer.{
  TokenType, start, normal, start_block, end_block, statement_end,
}
use cs_3_boost_echo_static_s.Config.Parser.{ParserState}
use cs_3_boost_echo_static_s.Config.Parser.Steps.{opens, closes, update_back-emplace_back}
use cs_3_boost_echo_static_s.Config.Printable.{
  IsTokens, IsPrintable, none_left, and_then, IsStatement, nested,
}
use cs_3_boost_echo_static_s.Config.Tokens.{IsToken}

pub emplace_back-ne-nil : (c : NginxConfig) (s : NginxConfigStatement) → emplace_back c s ≢ nil
unfolding emplace_back
emplace_back-ne-nil nil s = cc
emplace_back-ne-nil (cons r c) s = cc

pub IsPrintable-emplace_back :
    {c : NginxConfig} {s : NginxConfigStatement}
    → IsPrintable c
    → IsStatement s
    → IsPrintable (emplace_back c s)
unfolding emplace_back
IsPrintable-emplace_back none_left h = and_then h none_left
IsPrintable-emplace_back (and_then r k) h = and_then r (IsPrintable-emplace_back k h)

pub IsStatement-block :
    {ts : List Bytes} (c : NginxConfig)
    → IsTokens ts
    → IsPrintable c
    → c ≢ nil
    → IsStatement (statement ts (block c))
IsStatement-block nil h k n = absurd (n refl)
IsStatement-block (cons s c) h (and_then r k) n = nested h r k

pub IsTokens-concat :
    (ts : List Bytes) {t : Bytes} → IsTokens ts → IsToken t → IsTokens (ts ++ t ∷ [])
IsTokens-concat [] h k = absurd h
IsTokens-concat (u ∷ us) (h, hs) k = (h, All-append IsToken us (_ ∷ []) hs (k, tt))

-- A configuration whose last statement is not finished.
pub data IsOpen (b : ChildBlock) : NginxConfig → Type 0 where
  unfinished :
      {c : NginxConfig} (done : NginxConfig) (ts : List Bytes)
      → c ≡ emplace_back done (statement ts b)
      → IsPrintable done
      → IsTokens ts
      → IsOpen b c

abbrev pub IsDone : NginxConfig → Type 0
IsDone c = IsPrintable c × (c ≢ nil)

-- What the last token says of the top of the stack.
abbrev pub TopInv : TokenType → NginxConfig → Type 0
TopInv start c = IsPrintable c
TopInv start_block c = IsPrintable c
TopInv normal c = IsOpen null c
TopInv statement_end c = IsDone c
TopInv end_block c = IsDone c
TopInv _ c = ⊥

abbrev pub StackInv : TokenType → List NginxConfig → NginxConfig → Type 0
StackInv last [] root = IsDone root × (closes last ≡ true)
StackInv last (top ∷ below) root = TopInv last top × All (IsOpen (block nil)) below

abbrev pub Inv : ParserState → Type 0
Inv p = StackInv p.last_token_type p.stack.open_configs p.stack.root

-- A block that is done closes in its owner.
pub close_owner :
    (c : NginxConfig) {owner : NginxConfig}
    → IsOpen (block nil) owner
    → IsDone c
    → (owner' : NginxConfig) × (update_back (reset_child (block c)) owner ≡ some owner')
      × IsDone owner'
close_owner c (unfinished done ts e h k) (p, n) = (
  emplace_back done (statement ts (block c)),
  rw e (update_back-emplace_back (reset_child (block c)) done (statement ts (block nil))),
  (IsPrintable-emplace_back h (IsStatement-block c k p n), emplace_back-ne-nil done _),
)

-- Either a statement is being read, or one may begin.
pub data TopCases (last : TokenType) (c : NginxConfig) : Type 0 where
  within : last ≡ normal → IsOpen null c → TopCases last c
  between : opens last ≡ true → IsPrintable c → TopCases last c

pub TopInv-cases : (last : TokenType) (c : NginxConfig) → TopInv last c → TopCases last c
TopInv-cases start c h = between refl h
TopInv-cases start_block c h = between refl h
TopInv-cases statement_end c h = between refl h.0
TopInv-cases end_block c h = between refl h.0
TopInv-cases normal c h = within refl h
TopInv-cases _ c h = absurd h

pub TopInv-IsDone :
    (last : TokenType) (c : NginxConfig) → closes last ≡ true → TopInv last c → IsDone c
TopInv-IsDone statement_end c o h = h
TopInv-IsDone end_block c o h = h
TopInv-IsDone _ c o h = ground arith
