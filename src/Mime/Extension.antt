-- ===== src/Mime/Extension.antt =====
-- Which part of a path the content type depends on.
use celeritas.Prelude.{
  ◌≡◌, ◌≢◌, refl, none, some, List, [], ◌∷◌, ◌++◌, map, Bytes, arith, ap, sym, ◌∙◌,
}
use celeritas.Text.{to_lower, equal_nocase, find_last}
use celeritas.Mime.{MimeEntry, mime_table, find_type, get_mime_type, octet_stream}

-- No byte of the list is a dot.
abbrev pub NoDot : Bytes → Type 0
NoDot [] = Unit {0}
NoDot (c ∷ cs) = (c ≢ b'.') × NoDot cs

find_last-none : (e : Bytes) → NoDot e → find_last b'.' e ≡ none
unfolding find_last
find_last-none [] h = refl
find_last-none (c ∷ e) h = ground (arith, find_last-none e)

find_last-append : (stem e : Bytes) → NoDot e → find_last b'.' (stem ++ b'.' ∷ e) ≡ some (b'.' ∷ e)
unfolding find_last
find_last-append [] e h = ground (arith, find_last-none e h)
find_last-append (c ∷ stem) e h = ground (arith, find_last-append stem e h)

find_type_lower :
    (es : List MimeEntry) (x y : Bytes)
    → map to_lower x ≡ map to_lower y
    → find_type es x ≡ find_type es y
unfolding find_type equal_nocase
find_type_lower [] x y h = refl
find_type_lower (e ∷ es) x y h = ground (arith, find_type_lower es x y h)

get_mime_type-some :
    (path ext : Bytes)
    → find_last b'.' path ≡ some ext
    → get_mime_type path ≡ find_type mime_table ext
unfolding get_mime_type
get_mime_type-some path ext e = rw (e, get_mime_type)

get_mime_type-none : (path : Bytes) → find_last b'.' path ≡ none → get_mime_type path ≡ octet_stream
unfolding get_mime_type
get_mime_type-none path e = rw (e, get_mime_type)

-- Two paths whose last dots are followed by the same bytes up to letter case have the same content
-- type, and one without a dot is an octet stream.
pub get_mime_type-extension :
    (stem stem' e e' : Bytes)
    → NoDot e
    → NoDot e'
    → map to_lower e ≡ map to_lower e'
    → (get_mime_type (stem ++ b'.' ∷ e) ≡ get_mime_type (stem' ++ b'.' ∷ e'))
      × (get_mime_type e ≡ octet_stream)
get_mime_type-extension stem stem' e e' h h' k =
    let same = find_type_lower mime_table (b'.' ∷ e) (b'.' ∷ e') (ap (◌∷◌ (to_lower b'.')) k) in
    (
      get_mime_type-some (stem ++ b'.' ∷ e) (b'.' ∷ e) (find_last-append stem e h)
          ∙ same
          ∙ sym
              (get_mime_type-some (stem' ++ b'.' ∷ e') (b'.' ∷ e') (find_last-append stem' e' h')),
      get_mime_type-none e (find_last-none e h),
    )
