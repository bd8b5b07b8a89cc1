-- ===== src/Mime/Length.antt =====
-- The content types are short.
use celeritas.Prelude.{◌≤◌, List, [], ◌∷◌, Bytes, length, arith, Option-cases, inl, inr}
use celeritas.Text.{codes, find_last}
use celeritas.Mime.{MimeEntry, mime_table, octet_stream, find_type, get_mime_type}

abbrev AreShort : List MimeEntry → Type 0
AreShort [] = Unit {0}
AreShort (e ∷ es) = (length e.mime_type ≤ 24) × AreShort es

length-octet_stream : length octet_stream ≤ 24
unfolding octet_stream codes
length-octet_stream = omega arith

mime_table-AreShort : AreShort mime_table
unfolding mime_table codes
mime_table-AreShort = omega arith

length-find_type :
    (es : List MimeEntry) (ext : Bytes) → AreShort es → length (find_type es ext) ≤ 24
unfolding find_type
length-find_type [] ext h = length-octet_stream
length-find_type (e ∷ es) ext h = ground (arith, length-find_type es ext)

pub length-get_mime_type : (path : Bytes) → length (get_mime_type path) ≤ 24
unfolding get_mime_type
length-get_mime_type path = elim (Option-cases (find_last b'.' path)) [
  | inl e ↦ rw (e, get_mime_type) length-octet_stream
  | inr (ext, e) ↦ rw (e, get_mime_type) (length-find_type mime_table ext mime_table-AreShort)
]
