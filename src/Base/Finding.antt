-- ===== src/Base/Finding.antt =====
-- `find` returns the first position of a text in another.
use Prim.Native.Nat.{ℕ, ◌≤◌}
use mathlib.Core.Path.{◌≡◌, refl, ap}
use mathlib.Core.Logic.{◌≢◌, inl, inr}
use mathlib.Core.Bool.{true}
use mathlib.Core.List.{[], ◌∷◌, ◌++◌}
use mathlib.Core.Option.{none, some}
use native.Mathlib.Omega.{arith}
use cs_3_boost_echo_static_s.Base.Tests.{Bool-cases, Option-cases}
use cs_3_boost_echo_static_s.Base.Text.{Bytes}
use cs_3_boost_echo_static_s.Base.Lists.{length}
use cs_3_boost_echo_static_s.Base.Search.{starts_with, find, erase_at}

pub starts_with-append : (needle post : Bytes) → starts_with needle (needle ++ post) ≡ true
unfolding starts_with
starts_with-append [] post = refl
starts_with-append (n ∷ needle) post = ground (arith, starts_with-append needle post)

pub starts_with_split :
    (needle text : Bytes)
    → starts_with needle text ≡ true
    → (post : Bytes) × (text ≡ needle ++ post)
unfolding starts_with
starts_with_split [] text h = (text, refl)
starts_with_split (n ∷ needle) [] h = cc
starts_with_split (n ∷ needle) (c ∷ text) h =
    let (post, e) = starts_with_split needle text (ground arith) in (post, ground arith)

find_here : (needle text : Bytes) → starts_with needle text ≡ true → find needle text ≡ some 0
unfolding find
find_here needle [] h = rw h
find_here needle (c ∷ text) h = rw h

find_later :
    (needle : Bytes) (c : ℕ) (text : Bytes)
    → find needle (c ∷ text) ≡ none
    → find needle text ≡ none
unfolding find
find_later needle c text h = ground arith

-- A text that is not found stands nowhere.
pub find-none :
    (needle text : Bytes)
    → find needle text ≡ none
    → (pre post : Bytes) → text ≢ pre ++ (needle ++ post)
find-none needle text h [] post e =
    cc (h, find_here needle text (rw e (starts_with-append needle post)))
find-none needle text h (p ∷ pre) post e =
    find-none needle (pre ++ (needle ++ post)) (find_later needle p _ (rw e at h)) pre post refl

-- A text that is found stands at the position, with what is before it in front.
pub find-some :
    (needle text : Bytes) (i : ℕ)
    → find needle text ≡ some i
    → (pre post : Bytes) × (text ≡ pre ++ (needle ++ post)) × (length pre ≡ i)
unfolding find
find-some needle [] i h = elim (Bool-cases (starts_with needle [])) [
  | inl s ↦ let (post, e) = starts_with_split needle [] s in ([], post, e, ground arith)
  | inr s ↦ absurd (ground arith)
]
find-some needle (c ∷ text) i h = elim (Bool-cases (starts_with needle (c ∷ text))) [
  | inl s ↦ let (post, e) = starts_with_split needle (c ∷ text) s in ([], post, e, ground arith)
  | inr s ↦ elim (Option-cases (find needle text)) [
    | inl n ↦ absurd (ground arith)
    | inr (j, f) ↦
        let (pre, post, e, l) = find-some needle text j f in
        (c ∷ pre, post, ap (◌∷◌ c) e, ground arith)
  ]
]

-- Erasing a text at its position leaves what stands round it.
pub erase_at-append :
    (pre needle post : Bytes)
    → erase_at (length pre) (length needle) (pre ++ (needle ++ post)) ≡ pre ++ post
unfolding erase_at
erase_at-append [] [] [] = refl
erase_at-append [] [] (c ∷ post) = refl
erase_at-append [] (n ∷ needle) post = erase_at-append [] needle post
erase_at-append (p ∷ pre) needle post = ap (◌∷◌ p) (erase_at-append pre needle post)

-- A text that is found stands nowhere before the position.
pub find-least :
    (needle text : Bytes) (i : ℕ)
    → find needle text ≡ some i
    → (pre post : Bytes) → text ≡ pre ++ (needle ++ post)
    → i ≤ length pre
unfolding find
find-least needle text i h [] post e =
    let here = find_here needle text (rw e (starts_with-append needle post)) in ground arith
find-least needle [] i h (p ∷ pre) post e = absurd (cc)
find-least needle (c ∷ text) i h (p ∷ pre) post e =
    elim (Bool-cases (starts_with needle (c ∷ text))) [
      | inl s ↦ ground arith
      | inr s ↦ elim (Option-cases (find needle text)) [
        | inl n ↦ absurd (ground arith)
        | inr (j, f) ↦
            let behind : text ≡ pre ++ (needle ++ post) = cc in
            let earlier = find-least needle text j f pre post behind in ground arith
      ]
    ]
