-- ===== src/HandlerStatic/Small.antt =====
-- How large the header blocks of the responses of the handlers are.
use celeritas.Prelude.{
  ◌&&◌, OnSome, ℕ, ◌+◌, ◌%◌, ◌^◌, ◌≤◌, length, take, Bytes, arith, length-take, Bool-cases, inl,
  inr, ◌==◌, Option, none, some, Option-cases, ltb,
}
use celeritas.Config.{ConfigData}
use celeritas.HandlerStatic.{
  handle_error, handle_options, serve_file, get_head_at, handle_get_head, handle_put, handle_static,
  attach_page, error_page, file_headers, attach_file, int_to_string, resolve_path,
}
use celeritas.Mime.{get_mime_type}
use celeritas.Mime.Length.{length-get_mime_type}
use celeritas.Response.Size.{IsSmall, IsSmall-add, IsSmall-common}
use celeritas.Response.{
  World, Stat, get_http_date, resp_add_header, resp_add_common_headers, resp_map_file_to_ctx,
  attach_mapping,
}
use celeritas.Text.{codes, c_str}
use celeritas.Text.Decimal.Length.{length-show_int}
use celeritas.Types.{path_max, RequestCtx, heap}

-- At most as much.
weaken :
    {count size count' size' : ℕ} {ctx : RequestCtx}
    → count ≤ count'
    → size ≤ size'
    → IsSmall count size ctx
    → IsSmall count' size' ctx
weaken a b s = record {
  counted = s.counted;
  count_le = omega (arith, s.count_le);
  size_le = omega (arith, s.size_le);
}

attach_page-IsSmall :
    (page : Bytes) (count size : ℕ) (ctx : RequestCtx)
    → IsSmall count size ctx
    → IsSmall (count + 1) (size + 14 + 11 + 4) (attach_page page ctx)
unfolding attach_page codes
attach_page-IsSmall page count size ctx s =
    let r = ctx.response in
    IsSmall-add (codes "Content-Length") (int_to_string (length page)) 14 11 count size
      (record ctx {
        response = record r { body_data = some (heap (take 511 page)); body_len = length page };
      })
      (omega arith) (length-show_int (length page % 2 ^ 32) (omega arith))
      (record { counted = s.counted; count_le = s.count_le; size_le = s.size_le })

attach_mapping-IsSmall :
    (o : Option Bytes) (ctx : RequestCtx) → IsSmall 8 400 ctx → IsSmall 8 400 (attach_mapping o ctx)
unfolding attach_mapping
attach_mapping-IsSmall none ctx s = record {
  counted = s.counted;
  count_le = s.count_le;
  size_le = s.size_le;
}
attach_mapping-IsSmall (some b) ctx s = record {
  counted = s.counted;
  count_le = s.count_le;
  size_le = s.size_le;
}

resp_map_file-IsSmall :
    (w : World) (local_file : Bytes) (ctx : RequestCtx)
    → IsSmall 8 400 ctx
    → IsSmall 8 400 (resp_map_file_to_ctx w local_file ctx)
unfolding resp_map_file_to_ctx attach_mapping
resp_map_file-IsSmall w local_file ctx s = elim (Bool-cases (w.can_open local_file)) [
  | inl c ↦
      rw (c, resp_map_file_to_ctx)
        (attach_mapping-IsSmall (w.map_file local_file ctx.response.body_len) ctx s)
  | inr c ↦ rw (c, resp_map_file_to_ctx) s
]

attach_file-IsSmall :
    (w : World) (local_file : Bytes) (sb : Stat) (ctx : RequestCtx)
    → IsSmall 8 400 ctx
    → IsSmall 8 400 (attach_file w local_file sb ctx)
unfolding attach_file
attach_file-IsSmall w local_file sb ctx s =
    let k = resp_map_file-IsSmall w local_file ctx s in
    elim (Bool-cases (ctx.method == 1 && ltb 0 sb.st_size)) [
      | inr f ↦ rw f s
      | inl t ↦ rw t (record { counted = k.counted; count_le = k.count_le; size_le = k.size_le })
    ]

module _ (conf : ConfigData) (w : World) (short : length conf.server_tok ≤ 19) where
  pub handle_error-IsSmall :
      (ctx : RequestCtx) → IsSmall 0 0 ctx → IsSmall 8 400 (handle_error conf w ctx)
  unfolding handle_error codes
  handle_error-IsSmall ctx s =
      let common = resp_add_common_headers conf w ctx in
      let closing = resp_add_header (codes "Connection") (codes "close") common in
      let typed = resp_add_header (codes "Content-Type") (codes "text/html") closing in
      let allowing = resp_add_header (codes "Allow") (codes "GET, HEAD, OPTIONS") typed in
      let page = error_page ctx.status_code in
      let c =
        IsSmall-add (codes "Connection") (codes "close") 10 5 2 66 common (omega arith)
          (omega arith) (IsSmall-common conf w 0 0 ctx short s) in
      let t =
        IsSmall-add (codes "Content-Type") (codes "text/html") 12 9 3 85 closing (omega arith)
          (omega arith) c in
      let a =
        IsSmall-add (codes "Allow") (codes "GET, HEAD, OPTIONS") 5 18 4 110 typed (omega arith)
          (omega arith) t in
      elim (Bool-cases (ctx.status_code == 405)) [
        | inl is405 ↦
            rw is405
              (weaken (omega arith) (omega arith) (attach_page-IsSmall page 5 137 allowing a))
        | inr other ↦
            rw other (weaken (omega arith) (omega arith) (attach_page-IsSmall page 4 110 typed t))
      ]

  handle_options-IsSmall :
      (ctx : RequestCtx) → IsSmall 0 0 ctx → IsSmall 8 400 (handle_options conf w ctx)
  unfolding handle_options codes
  handle_options-IsSmall ctx s =
      let common = resp_add_common_headers conf w ctx in
      let ranges = resp_add_header (codes "Accept-Ranges") (codes "bytes") common in
      let allowing = resp_add_header (codes "Allow") (codes "GET, HEAD, OPTIONS") ranges in
      let sized = resp_add_header (codes "Content-Length") (int_to_string 0) allowing in
      let r =
        IsSmall-add (codes "Accept-Ranges") (codes "bytes") 13 5 2 66 common (omega arith)
          (omega arith) (IsSmall-common conf w 0 0 ctx short s) in
      let a =
        IsSmall-add (codes "Allow") (codes "GET, HEAD, OPTIONS") 5 18 3 88 ranges (omega arith)
          (omega arith) r in
      let l =
        IsSmall-add (codes "Content-Length") (int_to_string 0) 14 11 4 115 allowing (omega arith)
          (length-show_int 0 (omega arith)) a in
      weaken (omega arith) (omega arith) (
        IsSmall-add (codes "Connection") (codes "keep-alive") 10 10 5 144 sized (omega arith)
          (omega arith) l)

  file_headers-IsSmall :
      (local_file : Bytes) (sb : Stat) (ctx : RequestCtx)
      → IsSmall 0 0 ctx
      → IsSmall 8 400 (file_headers conf w local_file sb ctx)
  unfolding file_headers codes
  file_headers-IsSmall local_file sb ctx s =
      let r = ctx.response in
      let sized = record ctx { response = record r { body_len = sb.st_size } } in
      let common = resp_add_common_headers conf w sized in
      let typed = resp_add_header (codes "Content-Type") (get_mime_type local_file) common in
      let dated = resp_add_header (codes "Last-Modified") (get_http_date w sb.st_mtime) typed in
      let counted = resp_add_header (codes "Content-Length") (int_to_string sb.st_size) dated in
      let keeping = resp_add_header (codes "Connection") (codes "keep-alive") counted in
      let full = resp_add_header (codes "Content-Language") (codes "en-CA") keeping in
      let s0 : IsSmall 0 0 sized = record {
        counted = s.counted;
        count_le = s.count_le;
        size_le = s.size_le;
      } in
      let s1 =
        IsSmall-add (codes "Content-Type") (get_mime_type local_file) 12 24 2 66 common
          (omega arith) (length-get_mime_type local_file)
          (IsSmall-common conf w 0 0 sized short s0) in
      let s2 =
        IsSmall-add (codes "Last-Modified") (get_http_date w sb.st_mtime) 13 29 3 106 typed
          (omega arith) (omega (arith, length-take 29 (w.http_date sb.st_mtime))) s1 in
      let s3 =
        IsSmall-add (codes "Content-Length") (int_to_string sb.st_size) 14 11 4 152 dated
          (omega arith) (length-show_int (sb.st_size % 2 ^ 32) (omega arith)) s2 in
      let s4 =
        IsSmall-add (codes "Connection") (codes "keep-alive") 10 10 5 181 counted (omega arith)
          (omega arith) s3 in
      weaken (omega arith) (omega arith) (
        IsSmall-add (codes "Content-Language") (codes "en-CA") 16 5 6 205 keeping (omega arith)
          (omega arith) s4)

  get_head_at-IsSmall :
      (local_file : Bytes) (ctx : RequestCtx)
      → IsSmall 0 0 ctx
      → IsSmall 8 400 (get_head_at conf w local_file ctx)
  unfolding get_head_at serve_file
  get_head_at-IsSmall local_file ctx s = elim (Option-cases (w.stat local_file)) [
    | inl e ↦
        rw (e, get_head_at)
          (handle_error-IsSmall (record ctx { status_code = 404 })
            (record { counted = s.counted; count_le = s.count_le; size_le = s.size_le }))
    | inr (sb, e) ↦
        rw (e, get_head_at)
          (attach_file-IsSmall w local_file sb (file_headers conf w local_file sb ctx)
            (file_headers-IsSmall local_file sb ctx s))
  ]

  handle_get_head-IsSmall :
      (ctx : RequestCtx) → IsSmall 0 0 ctx → OnSome (IsSmall 8 400) (handle_get_head conf w ctx)
  unfolding handle_get_head
  handle_get_head-IsSmall ctx s =
      elim (Option-cases (resolve_path (take path_max conf.doc_root) (c_str ctx.h1.uri) path_max)) [
        | inl e ↦ rw (e, handle_get_head) tt
        | inr (local_file, e) ↦ rw (e, handle_get_head) (get_head_at-IsSmall local_file ctx s)
      ]

  -- Whatever handler runs on a response without headers, it leaves headers that are counted, at most
  -- eight, and at most 400 bytes together.
  pub handle_static-IsSmall :
      (ctx : RequestCtx) → IsSmall 0 0 ctx → OnSome (IsSmall 8 400) (handle_static conf w ctx)
  unfolding handle_static handle_put
  handle_static-IsSmall ctx s =
      let kept : IsSmall 8 400 ctx = weaken (omega arith) (omega arith) s in
      elim (Bool-cases (ctx.method == 1)) [
        | inl t ↦ rw t (handle_get_head-IsSmall ctx s)
        | inr f1 ↦ elim (Bool-cases (ctx.method == 2)) [
          | inl t ↦ rw (f1, t) (handle_get_head-IsSmall ctx s)
          | inr f2 ↦ elim (Bool-cases (ctx.method == 64)) [
            | inl t ↦ rw (f1, f2, t) (handle_options-IsSmall ctx s)
            | inr f3 ↦ elim (Bool-cases (ctx.method == 8)) [
              | inl t ↦
                  rw (f1, f2, f3, t)
                    (record {
                      counted = kept.counted;
                      count_le = kept.count_le;
                      size_le = kept.size_le;
                    })
              | inr f4 ↦ rw (f1, f2, f3, f4) kept
            ]
          ]
        ]
      ]
