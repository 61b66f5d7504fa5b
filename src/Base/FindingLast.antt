-- ===== src/Base/FindingLast.antt =====
-- `find_last_of` returns the last position of a byte.
use Prim.Native.Nat.{ℕ, suc, ◌<◌}
use mathlib.Core.Bool.{Bool, true, not}
use mathlib.Core.List.{[], ◌∷◌, ◌++◌}
use mathlib.Core.Logic.{inl, inr}
use mathlib.Core.Option.{none, some}
use mathlib.Core.Path.{◌≡◌, refl, ap}
use native.Mathlib.Omega.{arith}
use cs_3_boost_echo_static_s.Base.Lists.{length, all}
use cs_3_boost_echo_static_s.Base.Search.{find_last_of, substr}
use cs_3_boost_echo_static_s.Base.Tests.{◌==◌, ==_iff, Bool-cases, Option-cases}
use cs_3_boost_echo_static_s.Base.Text.{Bytes}

-- The byte does not stand in the text.
abbrev pub lacks : ℕ → Bytes → Bool
lacks b text = all (λ c. not (c == b)) text

pub find_last_of-none : (b : ℕ) (text : Bytes) → find_last_of b text ≡ none → lacks b text ≡ true
unfolding find_last_of
find_last_of-none b [] h = refl
find_last_of-none b (c ∷ text) h = elim (Option-cases (find_last_of b text)) [
  | inl e ↦ ground (arith, find_last_of-none b text e)
  | inr (i, e) ↦ absurd (ground arith)
]

-- What stands before and behind the last place of a byte.
pub record IsLast (b : ℕ) (text : Bytes) (i : ℕ) : Type 0 where
  pub pre : Bytes
  pub post : Bytes
  pub parts : text ≡ pre ++ b ∷ post
  pub at_position : length pre ≡ i
  pub last : lacks b post ≡ true

pub find_last_of-some :
    (b : ℕ) (text : Bytes) (i : ℕ) → find_last_of b text ≡ some i → IsLast b text i
unfolding find_last_of
find_last_of-some b [] i h = cc
find_last_of-some b (c ∷ text) i h = elim (Option-cases (find_last_of b text)) [
  | inl e ↦ elim (Bool-cases (c == b)) [
    | inl f ↦ record {
      pre = [];
      post = text;
      parts = ap (λ x. x ∷ text) ((==_iff c b).0 f);
      at_position = ground arith;
      last = find_last_of-none b text e;
    }
    | inr f ↦ absurd (ground arith)
  ]
  | inr (j, e) ↦
      let l = find_last_of-some b text j e in
      let p = l.at_position in
      record {
        pre = c ∷ l.pre;
        post = l.post;
        parts = ap (◌∷◌ c) l.parts;
        at_position = ground arith;
        last = l.last;
      }
]

pub substr-append :
    (pre : Bytes) (b : ℕ) (post : Bytes) → substr (suc (length pre)) (pre ++ b ∷ post) ≡ post
unfolding substr
substr-append [] b post = refl
substr-append (c ∷ pre) b post = substr-append pre b post

pub lacks-append :
    (b : ℕ) (pre post : Bytes)
    → lacks b (pre ++ post) ≡ true
    → (lacks b pre ≡ true) × (lacks b post ≡ true)
lacks-append b [] post h = (refl, h)
lacks-append b (c ∷ pre) post h =
    let (k, l) = lacks-append b pre post (ground arith) in (ground arith, l)

-- Of two places in a text, the earlier stands in front of the later.
pub two_places :
    (pre post pre' post' : Bytes) (x y : ℕ)
    → pre ++ x ∷ post ≡ pre' ++ y ∷ post'
    → length pre < length pre'
    → (between : Bytes) × (post ≡ between ++ y ∷ post')
two_places [] post [] post' x y e h = absurd (omega arith)
two_places (c ∷ pre) post [] post' x y e h = absurd (omega arith)
two_places [] post (d ∷ pre') post' x y e h = (pre', cc)
two_places (c ∷ pre) post (d ∷ pre') post' x y e h =
    two_places pre post pre' post' x y (cc) (omega arith)

pub same_place :
    (pre post pre' post' : Bytes) (x y : ℕ)
    → pre ++ x ∷ post ≡ pre' ++ y ∷ post'
    → length pre ≡ length pre'
    → x ≡ y
same_place [] post [] post' x y e h = cc
same_place (c ∷ pre) post [] post' x y e h = absurd (omega arith)
same_place [] post (d ∷ pre') post' x y e h = absurd (omega arith)
same_place (c ∷ pre) post (d ∷ pre') post' x y e h =
    same_place pre post pre' post' x y (cc) (omega arith)
