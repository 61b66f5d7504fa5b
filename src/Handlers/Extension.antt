-- ===== src/Handlers/Extension.antt =====
-- The extension of a path, by its last segment.
use cs_3_boost_echo_static_s.Base.{
  ℕ, suc, ◌<◌, ◌≡◌, sym, ap, subst, ◌∙◌, inl, inr, true, false, Bool-cases, none, some,
  Option-cases, [], ◌∷◌, ◌++◌, Bytes, arith, length, ltb,
}
use cs_3_boost_echo_static_s.Base.FindingLast.{
  lacks, IsLast, find_last_of-none, find_last_of-some, substr-append, lacks-append, two_places,
  same_place,
}
use cs_3_boost_echo_static_s.Base.Search.{find_last_of, substr}
use cs_3_boost_echo_static_s.Handlers.{extension_of}

-- The last segment ends in a dot and the extension; or it has no dot, and the extension is empty.
pub data IsExtension : Bytes → Bytes → Type 0 where
  dotted :
      (directory base extension : Bytes)
      → lacks b'/' base ≡ true
      → lacks b'/' extension ≡ true
      → lacks b'.' extension ≡ true
      → IsExtension (directory ++ b'/' ∷ (base ++ b'.' ∷ extension)) extension
  bare :
      (directory name : Bytes)
      → lacks b'/' name ≡ true
      → lacks b'.' name ≡ true
      → IsExtension (directory ++ b'/' ∷ name) []

module _ (path : Bytes) where
  -- A dot behind the last slash.
  dot_behind :
      (i j : ℕ) (dot : IsLast b'.' path i) (slash : IsLast b'/' path j)
      → j < i
      → IsExtension path (substr (suc i) path)
  dot_behind i j dot slash h =
      let a = dot.at_position in
      let a' = slash.at_position in
      let (base, e) =
        two_places slash.pre slash.post dot.pre dot.post b'/' b'.' (sym slash.parts ∙ dot.parts)
          (omega arith) in
      let (k, l) =
        lacks-append b'/' base (b'.' ∷ dot.post) (subst (λ x. lacks b'/' x ≡ true) e slash.last) in
      let s : substr (suc i) path ≡ dot.post =
        ap (λ n. substr (suc n) path) (sym a)
        ∙ ap (substr (suc (length dot.pre))) dot.parts
        ∙ substr-append dot.pre b'.' dot.post in
      let p : path ≡ slash.pre ++ b'/' ∷ (base ++ b'.' ∷ dot.post) =
        slash.parts ∙ ap (λ x. slash.pre ++ b'/' ∷ x) e in
      subst (λ x. IsExtension x (substr (suc i) path)) (sym p)
        (subst (IsExtension (slash.pre ++ b'/' ∷ (base ++ b'.' ∷ dot.post))) (sym s)
          (dotted slash.pre base dot.post k l dot.last))

  -- A last segment without a dot.
  no_dot_behind :
      (j : ℕ) (slash : IsLast b'/' path j) → lacks b'.' slash.post ≡ true → IsExtension path []
  no_dot_behind j slash h =
      subst (λ x. IsExtension x []) (sym slash.parts) (bare slash.pre slash.post slash.last h)

  dot_before :
      (i j : ℕ) (dot : IsLast b'.' path i) (slash : IsLast b'/' path j)
      → ltb j i ≡ false
      → lacks b'.' slash.post ≡ true
  dot_before i j dot slash h =
      let a = dot.at_position in
      let a' = slash.at_position in
      elim (Bool-cases (ltb i j)) [
        | inl k ↦
            let (between, e) =
              two_places dot.pre dot.post slash.pre slash.post b'.' b'/'
                (sym dot.parts ∙ slash.parts) (ground arith) in
            (lacks-append b'.' between (b'/' ∷ slash.post)
              (subst (λ x. lacks b'.' x ≡ true) e dot.last)).1
        | inr k ↦ absurd (
            omega (
              arith,
              same_place dot.pre dot.post slash.pre slash.post b'.' b'/'
                  (sym dot.parts ∙ slash.parts) (ground arith),
            ))
      ]

find-slash : (tail : Bytes) → find_last_of b'/' (b'/' ∷ tail) ≡ none → ⊥
unfolding find_last_of
find-slash tail h = elim (Option-cases (find_last_of b'/' tail)) [
  | inl e ↦ cc (rw (e, find_last_of) at h)
  | inr (i, e) ↦ cc (rw (e, find_last_of) at h)
]

IsExtension-by_slash :
    (path : Bytes) (j : ℕ) → find_last_of b'/' path ≡ some j → IsExtension path (extension_of path)
unfolding extension_of
IsExtension-by_slash path j h =
    let slash = find_last_of-some b'/' path j h in
    elim (Option-cases (find_last_of b'.' path)) [
      | inl e ↦
          let none_left : lacks b'.' (slash.pre ++ b'/' ∷ slash.post) ≡ true =
            subst (λ x. lacks b'.' x ≡ true) slash.parts (find_last_of-none b'.' path e) in
          let (_, behind) = lacks-append b'.' slash.pre (b'/' ∷ slash.post) none_left in
          rw (h, e, extension_of) (no_dot_behind path j slash behind)
      | inr (i, e) ↦
          let dot = find_last_of-some b'.' path i e in
          elim (Bool-cases (ltb j i)) [
            | inl k ↦ rw (h, e, k, extension_of) (dot_behind path i j dot slash (ground arith))
            | inr k ↦
                rw (h, e, k, extension_of)
                  (no_dot_behind path j slash (dot_before path i j dot slash k))
          ]
    ]

-- For a path that begins with a slash, the extension is what follows the last dot of the last segment,
-- and it is empty if that segment has no dot: dots in the names of directories do not count.
pub extension_of-IsExtension :
    (tail : Bytes) → IsExtension (b'/' ∷ tail) (extension_of (b'/' ∷ tail))
extension_of-IsExtension tail = elim (Option-cases (find_last_of b'/' (b'/' ∷ tail))) [
  | inl e ↦ absurd (find-slash tail e)
  | inr (j, e) ↦ IsExtension-by_slash (b'/' ∷ tail) j e
]
