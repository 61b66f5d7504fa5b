-- ===== src/Server/Routes/Unique.antt =====
-- The promise of the routes leaves one answer.
use mathlib.Core.Option.{some-injective}
use cs_3_boost_echo_static_s.Base.{
  ℕ, ◌≡◌, sym, ap, subst, ◌∙◌, inl, inr, Option, List, [], ◌∷◌, ◌++◌, Bytes, arith, length,
}
use cs_3_boost_echo_static_s.Base.Finding.{erase_at-append}
use cs_3_boost_echo_static_s.Base.Search.{c_str, erase_at}
use cs_3_boost_echo_static_s.Handlers.{extension_of}
use cs_3_boost_echo_static_s.MimeTypes.{extension_to_type}
use cs_3_boost_echo_static_s.Server.Routes.{
  Action, echo, files, Route, IsFirst, IsPage, Acts, Answers, ok_wire,
}

-- The first place of a text is one place.
IsFirst-unique :
    (text uri pre post pre' post' : Bytes)
    → IsFirst text uri pre post
    → IsFirst text uri pre' post'
    → pre ++ post ≡ pre' ++ post'
IsFirst-unique text uri pre post pre' post' f f' =
    let k : length pre ≡ length pre' =
      omega (arith, f.least pre' post' f'.parts, f'.least pre post f.parts) in
    sym (erase_at-append pre text post)
    ∙ ap (erase_at (length pre) (length text)) (sym f.parts ∙ f'.parts)
    ∙ ap (λ n. erase_at n (length text) (pre' ++ (text ++ post'))) k
    ∙ erase_at-append pre' text post'

module _ (lexical_cast : ℕ → Bytes) (open_file : Bytes → Option Bytes) where
  IsPage-unique :
      (directory uri path page path' page' : Bytes)
      → IsPage open_file directory uri path page
      → IsPage open_file directory uri path' page'
      → ok_wire lexical_cast (extension_to_type (extension_of path)) page
        ≡ ok_wire lexical_cast (extension_to_type (extension_of path')) page'
  IsPage-unique directory uri path page path' page' p p' =
      let e = some-injective _ _ (sym p.decoded ∙ p'.decoded) in
      let o = ap (λ x. open_file (c_str (directory ++ x))) e in
      let k = some-injective _ _ (sym p.opened ∙ o ∙ p'.opened) in cc (e, k)

  Acts-unique :
      (action : Action) (uri raw wire wire' : Bytes)
      → Acts lexical_cast open_file action uri raw wire
      → Acts lexical_cast open_file action uri raw wire'
      → wire ≡ wire'
  Acts-unique echo uri raw wire wire' a a' = a ∙ sym a'
  Acts-unique (files directory) uri raw wire wire' (inl (x, y, p, e)) (inl (x', y', p', e')) =
      e ∙ IsPage-unique directory uri x y x' y' p p' ∙ sym e'
  Acts-unique (files directory) uri raw wire wire' (inl (x, y, p, e)) (inr (n, e')) =
      absurd (n (x, y, p))
  Acts-unique (files directory) uri raw wire wire' (inr (n, e)) (inl (x, y, p, e')) =
      absurd (n (x, y, p))
  Acts-unique (files directory) uri raw wire wire' (inr (n, e)) (inr (n', e')) = e ∙ sym e'

  pub Answers-unique :
      (routes : List Route) (uri raw wire wire' : Bytes)
      → Answers lexical_cast open_file routes uri raw wire
      → Answers lexical_cast open_file routes uri raw wire'
      → wire ≡ wire'
  Answers-unique [] uri raw wire wire' a a' = a ∙ sym a'
  Answers-unique (r ∷ rs) uri raw wire wire' (inl (n, a)) (inl (n', a')) =
      Answers-unique rs uri raw wire wire' a a'
  Answers-unique (r ∷ rs) uri raw wire wire' (inl (n, a)) (inr (pre, post, f, a')) =
      absurd (n pre post f.parts)
  Answers-unique (r ∷ rs) uri raw wire wire' (inr (pre, post, f, a)) (inl (n, a')) =
      absurd (n pre post f.parts)
  Answers-unique (r ∷ rs) uri raw wire wire' (inr (pre, post, f, a)) (inr (pre', post', f', a')) =
      Acts-unique r.action (pre' ++ post') raw wire wire'
        (subst (λ x. Acts lexical_cast open_file r.action x raw wire)
          (IsFirst-unique r.path uri pre post pre' post' f f') a)
        a'
