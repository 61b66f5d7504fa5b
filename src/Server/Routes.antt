-- ===== src/Server/Routes.antt =====
-- What the server promises, without maps and buffers: a list of routes, and the answer to a URI.
pub mod Page
pub mod Unique
pub mod Refines
pub mod CutOff
use cs_3_boost_echo_static_s.Base.{
  ℕ, ◌≡◌, ◌≢◌, ◌⊎◌, ◌≤◌, true, false, Option, some, List, [], ◌∷◌, ◌++◌, Bytes, codes, equal,
  length,
}
use cs_3_boost_echo_static_s.Base.Dict.{Dict}
use cs_3_boost_echo_static_s.Base.Search.{c_str}
use cs_3_boost_echo_static_s.Handlers.{extension_of, not_found_body}
use cs_3_boost_echo_static_s.MimeTypes.{extension_to_type}
use cs_3_boost_echo_static_s.Server.Session.Maps.{path_of, handler_of, directory_of}
use cs_3_boost_echo_static_s.Url.{url_decode}

pub data Action : Type 0 where
  echo : Action
  files : Bytes → Action

pub record Route : Type 0 where
  pub path : Bytes
  pub action : Action

-- The text stands in `uri` behind `pre` and in front of `post`, and nowhere before.
pub record IsFirst (text uri pre post : Bytes) : Type 0 where
  pub parts : uri ≡ pre ++ (text ++ post)
  pub least : (pre' post' : Bytes) → uri ≡ pre' ++ (text ++ post') → length pre ≤ length pre'

abbrev pub Avoids : Bytes → Bytes → Type 0
Avoids text uri = (pre post : Bytes) → uri ≢ pre ++ (text ++ post)

-- The URI names the file below the directory with this content.
pub record IsPage (open_file : Bytes → Option Bytes) (directory uri path page : Bytes)
    : Type 0 where
  pub decoded : url_decode uri ≡ some path
  pub absolute : (tail : Bytes) × (path ≡ b'/' ∷ tail)
  pub no_dots : Avoids (codes "..") path
  pub opened : open_file (c_str (directory ++ path)) ≡ some page

module _ (lexical_cast : ℕ → Bytes) where
  -- The two answers, as they go over the wire.
  abbrev pub ok_wire : Bytes → Bytes → Bytes
  ok_wire content_type body =
      codes "HTTP/1.0 200 OK\r\nContent-Length: "
      ++ (lexical_cast (length body)
          ++ (codes "\r\nContent-Type: " ++ (content_type ++ (codes "\r\n\r\n" ++ body))))

  abbrev pub not_found_wire : Bytes
  not_found_wire =
      codes "HTTP/1.0 404 Not Found\r\nContent-Length: "
      ++ (lexical_cast (length not_found_body)
          ++ (codes "\r\nContent-Type: text/html\r\n\r\n" ++ not_found_body))

  module _ (open_file : Bytes → Option Bytes) where
    -- What a route does with a URI without its path, and with the bytes of the request.
    abbrev pub Acts : Action → Bytes → Bytes → Bytes → Type 0
    Acts echo uri raw wire = wire ≡ ok_wire (codes "text/plain") raw
    Acts (files directory) uri raw wire =
        ((path : Bytes) × (page : Bytes) × IsPage open_file directory uri path page
          × (wire ≡ ok_wire (extension_to_type (extension_of path)) page))
        ⊎ (¬ ((path : Bytes) × (page : Bytes) × IsPage open_file directory uri path page)
            × (wire ≡ not_found_wire))

    -- The first route whose path stands in the URI answers; where there is none, the answer is 404.
    abbrev pub Answers : List Route → Bytes → Bytes → Bytes → Type 0
    Answers [] uri raw wire = wire ≡ not_found_wire
    Answers (route ∷ routes) uri raw wire =
        (Avoids route.path uri × Answers routes uri raw wire)
        ⊎ ((pre : Bytes) × (post : Bytes) × IsFirst route.path uri pre post
            × Acts route.action (pre ++ post) raw wire)

-- The map of a handler stands for a route.
abbrev pub IsAction : Dict → Action → Type 0
IsAction map echo = equal (handler_of map) (codes "echo") ≡ true
IsAction map (files directory) =
    (equal (handler_of map) (codes "echo") ≡ false) × (directory_of map ≡ some directory)

abbrev pub Represents : List Dict → List Route → Type 0
Represents [] [] = Unit
Represents (map ∷ handlers) (route ∷ routes) =
    (path_of map ≡ route.path) × IsAction map route.action × Represents handlers routes
Represents _ _ = ⊥
