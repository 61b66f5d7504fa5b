-- ===== src/Server/Config/Candidates.antt =====
-- The number that `getPort` takes: that of request.cc, and those of the older programs.
use cs_3_boost_echo_static_s.Base.{
  ◌≡◌, refl, ap, inl, inr, Bool, true, false, Bool-cases, Option, none, some, Option-cases, List,
  [], ◌∷◌, ◌++◌, Bytes, equal, if◌then◌else◌,
}
use cs_3_boost_echo_static_s.Base.Int.{ℤ, negsuc}
use cs_3_boost_echo_static_s.Base.Numbers.{stoi}
use cs_3_boost_echo_static_s.Config.{NginxConfig, nil, cons, statement}
use cs_3_boost_echo_static_s.Server.Config.{port_in_tokens, port_in_statements, get_port_of}

-- The tokens that stand directly behind the key.
abbrev pub behind_key : Bytes → List Bytes → List Bytes
behind_key key [] = []
behind_key key (t ∷ []) = []
behind_key key (t ∷ u ∷ tokens) =
    (if equal t key then u ∷ [] else []) ++ behind_key key (u ∷ tokens)

-- Those of all statements, each statement for itself.
abbrev pub candidates : Bytes → NginxConfig → List Bytes
candidates key nil = []
candidates key (cons (statement tokens b) c) = behind_key key tokens ++ candidates key c

abbrev pub first_number : List Bytes → Option ℤ
first_number [] = none
first_number (t ∷ ts) = elim (stoi t) [ some n ↦ some n | none ↦ first_number ts ]

abbrev or_else : Option ℤ → Option ℤ → Option ℤ
or_else none o = o
or_else (some n) o = some n

first_number-append :
    (ts us : List Bytes) → first_number (ts ++ us) ≡ or_else (first_number ts) (first_number us)
first_number-append [] us = refl
first_number-append (t ∷ ts) us = elim (Option-cases (stoi t)) [
  | inl e ↦ rw (e, first_number) (first_number-append ts us)
  | inr (n, e) ↦ rw (e, first_number) refl
]

-- With the flag of the loop: the first token is behind the key, if the flag is false.
abbrev front : Bool → List Bytes → List Bytes
front kl [] = []
front kl (t ∷ tokens) = if kl then [] else t ∷ []

port_in_tokens-behind_key :
    (key : Bytes) (kl : Bool) (tokens : List Bytes)
    → port_in_tokens key kl tokens ≡ first_number (front kl tokens ++ behind_key key tokens)
unfolding port_in_tokens
port_in_tokens-behind_key key true [] = refl
port_in_tokens-behind_key key false [] = refl
port_in_tokens-behind_key key true (t ∷ []) = refl
port_in_tokens-behind_key key false (t ∷ []) = refl
port_in_tokens-behind_key key true (t ∷ u ∷ tokens) = elim (Bool-cases (equal t key)) [
  | inl e ↦ rw (e, behind_key) (port_in_tokens-behind_key key false (u ∷ tokens))
  | inr e ↦ rw (e, behind_key) (port_in_tokens-behind_key key true (u ∷ tokens))
]
port_in_tokens-behind_key key false (t ∷ u ∷ tokens) = elim (Option-cases (stoi t)) [
  | inl s ↦
      rw (s, first_number)
        (elim (Bool-cases (equal t key)) [
          | inl e ↦ rw (e, behind_key) (port_in_tokens-behind_key key false (u ∷ tokens))
          | inr e ↦ rw (e, behind_key) (port_in_tokens-behind_key key true (u ∷ tokens))
        ])
  | inr (n, s) ↦ rw (s, first_number) refl
]

port_in_tokens_start :
    (key : Bytes) (tokens : List Bytes)
    → port_in_tokens key true tokens ≡ first_number (behind_key key tokens)
port_in_tokens_start key [] = port_in_tokens-behind_key key true []
port_in_tokens_start key (t ∷ tokens) = port_in_tokens-behind_key key true (t ∷ tokens)

port_in_statements-candidates :
    (key : Bytes) (c : NginxConfig) → port_in_statements key c ≡ first_number (candidates key c)
unfolding port_in_statements
port_in_statements-candidates key nil = refl
port_in_statements-candidates key (cons (statement tokens b) c) =
    let later = port_in_statements-candidates key c in
    let both = first_number-append (behind_key key tokens) (candidates key c) in
    let here = port_in_tokens_start key tokens in
    elim (Option-cases (port_in_tokens key true tokens)) [
      | inl e ↦ rw (both, ← here, e, port_in_statements) later
      | inr (n, e) ↦ rw (both, ← here, e, port_in_statements) refl
    ]

-- For every configuration and key, the port is the number of the first token that stands directly behind
-- the key, in the same statement, and begins with a number that an `int` can hold; without such a token it is -1.
pub get_port_of-candidates :
    (key : Bytes) (c : NginxConfig)
    → get_port_of key c ≡ elim (first_number (candidates key c)) [ some n ↦ n | none ↦ negsuc 0 ]
unfolding get_port_of
get_port_of-candidates key c =
    ap (λ o. elim o [ some n ↦ n | none ↦ negsuc 0 ]) (port_in_statements-candidates key c)
