-- ===== src/HandlerStatic.antt =====
-- src/handler_static.c: the handlers for static files, for OPTIONS and for errors.
pub mod Resolve
pub mod Small
use celeritas.Prelude.{
  ℕ, ◌+◌, ◌-◌, ◌^◌, ◌%◌, Option, none, some, Bool, true, false, not, ◌&&◌, List, [], ◌∷◌, ◌++◌,
  length, take, ltb, ◌==◌, if◌then◌else◌, Bytes,
}
use celeritas.Config.{ConfigData}
use celeritas.Response.{
  World, Stat, get_http_date, resp_add_header, resp_add_common_headers, resp_map_file_to_ctx,
}
use celeritas.Mime.{get_mime_type}
use celeritas.Text.{codes, c_str}
use celeritas.Text.Decimal.{show_nat, show_int}
use celeritas.Types.{
  path_max, RequestCtx, Response, Body, heap, mapped, m_get, m_head, m_options, m_put, l_debug,
  log_event,
}
use celeritas.Types.Status.{
  status_value, sc_404_not_found, sc_405_method_not_allowed, http_status_to_string,
}
use celeritas.Validator.{resp_set_status}

-- `s[strlen(s) - 1] == c`, where there is such a byte.
unfoldable pub ends_with : ℕ → Bytes → Bool
ends_with c [] = false
ends_with c (x ∷ []) = x == c
ends_with c (x ∷ y ∷ s) = ends_with c (y ∷ s)

-- `s[0] == '/'`
unfoldable pub has_slash : Bytes → Bool
has_slash [] = false
has_slash (c ∷ s) = c == b'/'

-- `s + 1`
unfoldable pub tail : Bytes → Bytes
tail [] = []
tail (c ∷ s) = s

-- The text that the three calls of `snprintf` format.
unfoldable pub joined : Bytes → Bytes → Bytes
joined docroot uri =
    let root_has_slash = ends_with b'/' docroot in
    let uri_has_slash = has_slash uri in
    if root_has_slash && uri_has_slash
    then docroot ++ tail uri
    else if not root_has_slash && not uri_has_slash
    then docroot ++ b'/' ∷ uri
    else docroot ++ uri

-- A path that ends in a slash gets `index.html`, as far as there is room.
unfoldable pub add_index : ℕ → Bytes → Bytes
add_index out_len path =
    if ends_with b'/' path
    then path ++ take (out_len - length path - 1) (codes "index.html")
    else path

-- `resolve_path`. `none` is the read of `docroot[-1]` for an empty root.
unfoldable pub resolve_path : Bytes → Bytes → ℕ → Option Bytes
resolve_path [] uri out_len = none
resolve_path (c ∷ docroot) uri out_len =
    some (add_index out_len (take (out_len - 1) (joined (c ∷ docroot) uri)))

-- The page of `handle_error`.
unfoldable pub error_page : ℕ → Bytes
error_page status =
    codes "<!DOCTYPE html>\n<html lang='en'>\n<head><title>"
    ++ (show_nat status
        ++ (b' '
            ∷ (http_status_to_string status
                ++ (codes "</title></head>\n<body><h1>"
                    ++ (show_nat status
                        ++ (b' '
                            ∷ (http_status_to_string status
                                ++ codes "</h1><p>Celeritas Server</p></body>\n</html>\n")))))))

-- `int_to_string`, of the `int` that a size is cast to.
abbrev pub int_to_string : ℕ → Bytes
int_to_string n = show_int (n % 2 ^ 32)

-- The end of `handle_error`: the page is attached, and its length announced. `malloc` succeeds;
-- `snprintf` keeps 511 bytes and returns the whole length.
unfoldable pub attach_page : Bytes → RequestCtx → RequestCtx
attach_page page ctx =
    let r = ctx.response in
    resp_add_header (codes "Content-Length") (int_to_string (length page)) (record ctx {
      response = record r { body_data = some (heap (take 511 page)); body_len = length page };
    })

-- `handle_error`
unfoldable pub handle_error : ConfigData → World → RequestCtx → RequestCtx
handle_error conf w ctx =
    let common = resp_add_common_headers conf w ctx in
    let closing = resp_add_header (codes "Connection") (codes "close") common in
    let typed = resp_add_header (codes "Content-Type") (codes "text/html") closing in
    let allowing =
      if ctx.status_code == status_value sc_405_method_not_allowed
      then resp_add_header (codes "Allow") (codes "GET, HEAD, OPTIONS") typed
      else typed in
    attach_page (error_page ctx.status_code) allowing

-- `handle_options`
unfoldable pub handle_options : ConfigData → World → RequestCtx → RequestCtx
handle_options conf w ctx =
    let common = resp_add_common_headers conf w ctx in
    let ranges = resp_add_header (codes "Accept-Ranges") (codes "bytes") common in
    let allowing = resp_add_header (codes "Allow") (codes "GET, HEAD, OPTIONS") ranges in
    let sized = resp_add_header (codes "Content-Length") (int_to_string 0) allowing in
    resp_add_header (codes "Connection") (codes "keep-alive") sized

-- The size and the headers that `handle_get_head` sets behind a successful `stat`.
unfoldable pub file_headers : ConfigData → World → Bytes → Stat → RequestCtx → RequestCtx
file_headers conf w local_file sb ctx =
    let r = ctx.response in
    let sized = record ctx { response = record r { body_len = sb.st_size } } in
    let common = resp_add_common_headers conf w sized in
    let typed = resp_add_header (codes "Content-Type") (get_mime_type local_file) common in
    let dated = resp_add_header (codes "Last-Modified") (get_http_date w sb.st_mtime) typed in
    let counted = resp_add_header (codes "Content-Length") (int_to_string sb.st_size) dated in
    let keeping = resp_add_header (codes "Connection") (codes "keep-alive") counted in
    resp_add_header (codes "Content-Language") (codes "en-CA") keeping

-- The end of `handle_get_head`: the file is mapped for a GET, unless it is empty.
unfoldable pub attach_file : World → Bytes → Stat → RequestCtx → RequestCtx
attach_file w local_file sb ctx =
    let body = resp_map_file_to_ctx w local_file ctx in
    let b = body.response in
    if ctx.method == m_get && ltb 0 sb.st_size
    then record body { response = record b { is_mmap = true } }
    else ctx

-- `handle_get_head` from the successful `stat` on.
unfoldable pub serve_file : ConfigData → World → Bytes → Stat → RequestCtx → RequestCtx
serve_file conf w local_file sb ctx =
    attach_file w local_file sb (file_headers conf w local_file sb ctx)

-- `handle_get_head` behind the path.
unfoldable pub get_head_at : ConfigData → World → Bytes → RequestCtx → RequestCtx
get_head_at conf w local_file ctx = elim (w.stat local_file) [
  | none ↦ handle_error conf w (resp_set_status ctx sc_404_not_found)
  | some sb ↦ serve_file conf w local_file sb ctx
]

-- `handle_get_head`
unfoldable pub handle_get_head : ConfigData → World → RequestCtx → Option RequestCtx
handle_get_head conf w ctx =
    let doc_root = take path_max conf.doc_root in
    elim (resolve_path doc_root (c_str ctx.h1.uri) path_max) [
      | none ↦ none
      | some local_file ↦ some (get_head_at conf w local_file ctx)
    ]

-- `handle_put`
unfoldable pub handle_put : RequestCtx → RequestCtx
handle_put ctx = log_event l_debug (codes "got a put") [] ctx

-- `handle_static`
unfoldable pub handle_static : ConfigData → World → RequestCtx → Option RequestCtx
handle_static conf w ctx =
    if ctx.method == m_get
    then handle_get_head conf w ctx
    else if ctx.method == m_head
    then handle_get_head conf w ctx
    else if ctx.method == m_options
    then some (handle_options conf w ctx)
    else if ctx.method == m_put
    then some (handle_put ctx)
    else some ctx

-- What `cleanup_request_resources` does with the body.
pub data Release : Type 0 where
  nothing : Release
  unmap : ℕ → Release
  free : Release

-- `cleanup_request_resources`
unfoldable pub cleanup_request_resources : RequestCtx → Release
cleanup_request_resources ctx = elim ctx.response.body_data [
  | none ↦ nothing
  | some body ↦ if ctx.response.is_mmap then unmap ctx.response.body_len else free
]
