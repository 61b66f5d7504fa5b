-- ===== src/Handlers/Paths.antt =====
-- The paths that the static handler opens.
use cs_3_boost_echo_static_s.Base.{
  ℕ, ◌≡◌, ◌≢◌, refl, ap, inl, inr, true, false, not, ◌||◌, Bool-cases, Option, none, Option-cases,
  [], ◌∷◌, ◌++◌, Bytes, arith, codes,
}
use cs_3_boost_echo_static_s.Base.Finding.{find-none}
use cs_3_boost_echo_static_s.Base.Search.{find, c_str, contains}
use cs_3_boost_echo_static_s.Http.{HttpRequest, HttpResponse}
use cs_3_boost_echo_static_s.Handlers.{is_absolute, serve_path, handle_static}
use cs_3_boost_echo_static_s.Url.{url_decode}

-- A name that is below a directory by its text: behind the directory comes a slash, and no two dots
-- stand side by side anywhere behind the directory. A zero byte ends the name.
pub record IsBelow (directory name : Bytes) : Type 0 where
  pub path : Bytes
  pub name_is : name ≡ c_str (directory ++ (b'/' ∷ path))
  pub no_dots : (pre post : Bytes) → b'/' ∷ path ≢ pre ++ (b'.' ∷ b'.' ∷ post)

contains-find : (needle text : Bytes) → contains needle text ≡ false → find needle text ≡ none
contains-find needle text h = ground arith

IsBelow-path :
    (directory path : Bytes)
    → is_absolute path ≡ true
    → contains (codes "..") path ≡ false
    → IsBelow directory (c_str (directory ++ path))
IsBelow-path directory [] h k = cc
IsBelow-path directory (c ∷ path) h k =
    let e : c ≡ b'/' = ground arith in
    record {
      path = path;
      name_is = rw e refl;
      no_dots = λ pre post s.
          find-none (codes "..") (c ∷ path) (contains-find (codes "..") (c ∷ path) k) pre post
            (rw e s);
    }

module _ (lexical_cast : ℕ → Bytes) (files files' : Bytes → Option Bytes) (directory : Bytes)
    (agree : (name : Bytes) → IsBelow directory name → files name ≡ files' name) where
  serve_path_agree :
      (path : Bytes) (r : HttpResponse)
      → serve_path lexical_cast files directory path r
        ≡ serve_path lexical_cast files' directory path r
  unfolding serve_path
  serve_path_agree path r =
      elim (Bool-cases (not (is_absolute path) || contains (codes "..") path)) [
        | inl e ↦ rw e refl
        | inr e ↦
            rw
              (agree (c_str (directory ++ path))
                (IsBelow-path directory path (ground arith) (ground arith)))
              refl
      ]

  -- The reply depends only on files below the configured directory: two machines that agree on those
  -- give the same reply to every request, also where the URI is escaped.
  pub handle_static_agree :
      (request : HttpRequest) (r : HttpResponse)
      → handle_static lexical_cast files directory request r
        ≡ handle_static lexical_cast files' directory request r
  unfolding handle_static
  handle_static_agree request r = elim (Option-cases (url_decode request.uri)) [
    | inl e ↦ rw (e, handle_static) refl
    | inr (path, e) ↦ rw (e, handle_static) (ap (λ x. (x, false)) (serve_path_agree path r))
  ]
