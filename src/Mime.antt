-- ===== src/Mime.antt =====
-- src/mime.c: the content type of a path, by its extension.
pub mod Extension
pub mod Length
use celeritas.Prelude.{Option, none, some, List, [], ◌∷◌, if◌then◌else◌, Bytes}
use celeritas.Text.{codes, equal_nocase, find_last}

-- `mime_entry_t`
pub record MimeEntry : Type 0 where
  pub extension : Bytes
  pub mime_type : Bytes

entry : Bytes → Bytes → MimeEntry
entry extension mime_type = record { extension = extension; mime_type = mime_type }

-- `mime_table`, without the row that ends it.
unfoldable pub mime_table : List MimeEntry
unfolding entry
mime_table =
    entry (codes ".html") (codes "text/html")
    ∷ entry (codes ".htm") (codes "text/html")
    ∷ entry (codes ".css") (codes "text/css")
    ∷ entry (codes ".js") (codes "text/javascript")
    ∷ entry (codes ".txt") (codes "text/plain")
    ∷ entry (codes ".jpg") (codes "image/jpeg")
    ∷ entry (codes ".jpeg") (codes "image/jpeg")
    ∷ entry (codes ".png") (codes "image/png")
    ∷ entry (codes ".gif") (codes "image/gif")
    ∷ entry (codes ".webp") (codes "image/webp")
    ∷ entry (codes ".ico") (codes "image/x-icon")
    ∷ entry (codes ".svg") (codes "image/svg+xml")
    ∷ entry (codes ".woff2") (codes "font/woff2")
    ∷ []

unfoldable pub octet_stream : Bytes
octet_stream = codes "application/octet-stream"

-- The loop over the table.
unfoldable pub find_type : List MimeEntry → Bytes → Bytes
find_type [] ext = octet_stream
find_type (e ∷ es) ext = if equal_nocase ext e.extension then e.mime_type else find_type es ext

-- `get_mime_type`
unfoldable pub get_mime_type : Bytes → Bytes
get_mime_type path = elim (find_last b'.' path) [
  | none ↦ octet_stream
  | some ext ↦ find_type mime_table ext
]
