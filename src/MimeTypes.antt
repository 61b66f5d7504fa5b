-- ===== src/MimeTypes.antt =====
-- mime_types.cc. The table ends in a null entry, which the list does not hold.
use cs_3_boost_echo_static_s.Base.{List, [], ◌∷◌, Bytes, codes, equal, if◌then◌else◌}

pub record Mapping : Type 0 where
  pub extension : Bytes
  pub mime_type : Bytes

abbrev mapping : Bytes → Bytes → Mapping
mapping e m = record { extension = e; mime_type = m }

abbrev pub mappings : List Mapping
mappings =
    mapping (codes "gif") (codes "image/gif")
    ∷ mapping (codes "htm") (codes "text/html")
    ∷ mapping (codes "html") (codes "text/html")
    ∷ mapping (codes "jpg") (codes "image/jpeg")
    ∷ mapping (codes "png") (codes "image/png")
    ∷ []

-- The loop over the table.
unfoldable pub type_in : List Mapping → Bytes → Bytes
type_in [] extension = codes "text/plain"
type_in (m ∷ ms) extension =
    if equal m.extension extension then m.mime_type else type_in ms extension

unfoldable pub extension_to_type : Bytes → Bytes
unfolding type_in
extension_to_type = type_in mappings
