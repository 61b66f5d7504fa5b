-- ===== src/Config/Print.antt =====
-- `ToString` of config_parser.cc. Each loop that appends to a string is a recursion that returns
-- what it appends.
use cs_3_boost_echo_static_s.Base.{ℕ, zero, suc, ◌+◌, Bool, true, false, List, [], ◌∷◌, ◌++◌, Bytes}
use cs_3_boost_echo_static_s.Config.{
  NginxConfig, nil, cons, NginxConfigStatement, statement, ChildBlock, null, block,
}

-- `for (int i = 0; i < depth; ++i) append("  ")`
unfoldable pub indent : ℕ → Bytes
indent zero = []
indent (suc depth) = b' ' ∷ b' ' ∷ indent depth

-- The loop over the tokens; the flag is `i == 0`.
unfoldable pub print_tokens : Bool → List Bytes → Bytes
print_tokens first [] = []
print_tokens true (t ∷ ts) = t ++ print_tokens false ts
print_tokens false (t ∷ ts) = b' ' ∷ (t ++ print_tokens false ts)

unfoldable mutual
  pub config_to_string : NginxConfig → ℕ → Bytes
  config_to_string nil depth = []
  config_to_string (cons s c) depth = statement_to_string s depth ++ config_to_string c depth

  pub statement_to_string : NginxConfigStatement → ℕ → Bytes
  statement_to_string (statement ts b) depth =
      indent depth ++ (print_tokens true ts ++ (child_to_string b depth ++ (b'\n' ∷ [])))

  pub child_to_string : ChildBlock → ℕ → Bytes
  child_to_string null depth = b';' ∷ []
  child_to_string (block c) depth =
      b' ' ∷ b'{' ∷ b'\n' ∷ (config_to_string c (depth + 1) ++ (indent depth ++ (b'}' ∷ [])))
