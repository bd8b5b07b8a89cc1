-- ===== src/HttpCommon/Announce.antt =====
-- The length that `handle_get_head` announces for a file, and the body behind it.
use celeritas.Prelude.{
  lt→ltb, ℕ, ◌%◌, ◌^◌, ◌<◌, ◌≡◌, refl, [], take, Bytes, arith, take_all, true, none, some, ◌∙◌, ap,
}
use celeritas.Config.{ConfigData}
use celeritas.HandlerStatic.{
  file_headers, attach_file, serve_file, int_to_string, cleanup_request_resources, unmap,
}
use celeritas.Response.{
  World, Stat, resp_add_header, resp_add_common_headers, resp_map_file_to_ctx, attach_mapping,
}
use celeritas.Text.{codes, c_str, equal, equal_nocase, to_lower}
use celeritas.Text.Decimal.{show_nat, show_int}
use celeritas.Text.Decimal.Length.{length-show_nat}
use celeritas.Types.{RequestCtx, mapped, m_get, find_header}

int_to_string-show_nat : (n : ℕ) → n < 2 ^ 31 → int_to_string n ≡ show_nat n
unfolding show_int
int_to_string-show_nat n h =
    let e : n % 2 ^ 32 ≡ n = omega arith in rw (e, lt→ltb n (2 ^ 31) h) refl

content_length-file_headers :
    (conf : ConfigData) (w : World) (local_file : Bytes) (sb : Stat) (ctx : RequestCtx)
    → ctx.response.headers ≡ []
    → find_header (file_headers conf w local_file sb ctx).response.headers (codes "Content-Length")
      ≡ some (take 4096 (int_to_string sb.st_size))
unfolding file_headers resp_add_header resp_add_common_headers find_header equal_nocase c_str equal
    to_lower codes
content_length-file_headers conf w local_file sb ctx h = rw h refl

-- The announced length, as the client reads it.
announced :
    (conf : ConfigData) (w : World) (local_file : Bytes) (sb : Stat) (ctx : RequestCtx)
    → ctx.response.headers ≡ []
    → sb.st_size < 2 ^ 31
    → find_header (file_headers conf w local_file sb ctx).response.headers (codes "Content-Length")
      ≡ some (show_nat sb.st_size)
announced conf w local_file sb ctx h k =
    content_length-file_headers conf w local_file sb ctx h
    ∙ ap (λ s. some (take 4096 s)) (int_to_string-show_nat sb.st_size k)
    ∙ ap some (
        take_all 4096 (show_nat sb.st_size)
          (omega (arith, length-show_nat 9 sb.st_size (omega arith))))

module _ (conf : ConfigData) (w : World) (local_file : Bytes) (sb : Stat) (ctx : RequestCtx) where
  served_headers :
      (serve_file conf w local_file sb ctx).response.headers
      ≡ (file_headers conf w local_file sb ctx).response.headers
  unfolding serve_file attach_file resp_map_file_to_ctx attach_mapping
  served_headers = ground arith

  served_length :
      ctx.response.headers ≡ []
      → sb.st_size < 2 ^ 31
      → find_header (serve_file conf w local_file sb ctx).response.headers (codes "Content-Length")
        ≡ some (show_nat sb.st_size)
  served_length h k =
      ap (λ hs. find_header hs (codes "Content-Length")) served_headers
      ∙ announced conf w local_file sb ctx h k

  sized : (file_headers conf w local_file sb ctx).response.body_len ≡ sb.st_size
  unfolding file_headers resp_add_header resp_add_common_headers
  sized = refl

  same_method : (file_headers conf w local_file sb ctx).method ≡ ctx.method
  unfolding file_headers resp_add_header resp_add_common_headers
  same_method = refl

-- For a GET of a file of 1 to 2^31 - 1 bytes, on a response without headers, when the file
-- opens and the mapping succeeds: the response announces the size of the file, its body is the mapped content, of that
-- length, and `cleanup_request_resources` unmaps that length.
pub serve_file-mapped :
    (conf : ConfigData) (w : World) (local_file : Bytes) (sb : Stat) (ctx : RequestCtx)
    (content : Bytes)
    → ctx.response.headers ≡ []
    → ctx.method ≡ m_get
    → 0 < sb.st_size
    → sb.st_size < 2 ^ 31
    → w.can_open local_file ≡ true
    → w.map_file local_file sb.st_size ≡ some content
    → (find_header (serve_file conf w local_file sb ctx).response.headers (codes "Content-Length")
        ≡ some (show_nat sb.st_size))
      × ((serve_file conf w local_file sb ctx).response.body_data ≡ some (mapped content))
      × ((serve_file conf w local_file sb ctx).response.body_len ≡ sb.st_size)
      × (cleanup_request_resources (serve_file conf w local_file sb ctx) ≡ unmap sb.st_size)
unfolding serve_file attach_file resp_map_file_to_ctx attach_mapping cleanup_request_resources
serve_file-mapped conf w local_file sb ctx content h g f k o m =
    let full = file_headers conf w local_file sb ctx in
    let n = sized conf w local_file sb ctx in
    let e = same_method conf w local_file sb ctx in
    (served_length conf w local_file sb ctx h k, ground arith, ground arith, ground arith)

-- For such a GET when the file opens and the mapping fails, as it does for a directory: the response still announces
-- the size that `stat` gave, and has no body.
pub serve_file-unmapped :
    (conf : ConfigData) (w : World) (local_file : Bytes) (sb : Stat) (ctx : RequestCtx)
    → ctx.response.headers ≡ []
    → ctx.method ≡ m_get
    → 0 < sb.st_size
    → sb.st_size < 2 ^ 31
    → w.can_open local_file ≡ true
    → w.map_file local_file sb.st_size ≡ none
    → (find_header (serve_file conf w local_file sb ctx).response.headers (codes "Content-Length")
        ≡ some (show_nat sb.st_size))
      × ((serve_file conf w local_file sb ctx).response.body_data ≡ none)
      × ((serve_file conf w local_file sb ctx).response.body_len ≡ 0)
unfolding serve_file attach_file resp_map_file_to_ctx attach_mapping
serve_file-unmapped conf w local_file sb ctx h g f k o m =
    let n = sized conf w local_file sb ctx in
    let e = same_method conf w local_file sb ctx in
    (served_length conf w local_file sb ctx h k, ground arith, ground arith)
