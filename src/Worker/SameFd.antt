-- ===== src/Worker/SameFd.antt =====
-- That no stage of a request changes the descriptor of its connection: the handlers and the response.
pub mod Ingress
use celeritas.Prelude.{
  ℕ, suc, ◌≡◌, refl, sym, ap, ◌∙◌, subst, Bool, true, false, Option, none, some, List, [], ◌∷◌,
  Bytes, length, take, ltb, inl, inr, Bool-cases, Option-cases, OnSome, arith, if◌then◌else◌, ◌==◌,
  ◌&&◌, not, ◌+◌, ◌-◌,
}
use celeritas.Config.{ConfigData}
use celeritas.ConnIo.{
  WriteResult, ReadResult, received, end_of_stream, read_failed, eintr, eagain, written,
  write_failed, conn_read, conn_write,
}
use celeritas.HandlerStatic.{
  attach_page, handle_error, handle_options, file_headers, attach_file, serve_file, get_head_at,
  handle_get_head, handle_put, handle_static, resolve_path, error_page,
}
use celeritas.Http1.{finish, parse_http1, parse_loop, initial, Parser, asks_h2c}
use celeritas.Http1.Read.{
  SocketEvent, PollResult, ReadStatus, read_http_headers, read_round, take_bytes, wait_more,
  max_header_size, header_complete, socket_error, client_closed, header_too_large, client_too_slow,
}
use celeritas.HttpCommon.{
  Result, success, failure, after_parse, after_read, process_ingress, route_request, run_handler,
  Writes, is_http2, body_bytes, send_body, send_rest, send_block, send_response,
}
use celeritas.Response.{
  World, Stat, resp_add_header, resp_add_common_headers, attach_mapping, resp_map_file_to_ctx,
  resp_build_response,
}
use celeritas.Types.{
  RequestCtx, Conn, log_event, l_warn, m_get, m_head, m_options, m_put, Handler, handle_error_fn,
  handle_static_fn, header_buffer_size, path_max,
}
use celeritas.Validator.{resp_set_status, method_of, check_request, validate_request}
use celeritas.Types.Status.{sc_505_http_version_not_supported}
use celeritas.Text.{c_str, codes}

abbrev pub SameFd : RequestCtx → RequestCtx → Type 0
SameFd ctx later = later.conn.fd ≡ ctx.conn.fd

pub if-fd :
    (ctx : RequestCtx) (b : Bool) (x y : RequestCtx)
    → SameFd ctx x
    → SameFd ctx y
    → SameFd ctx (if b then x else y)
if-fd ctx true x y p q = p
if-fd ctx false x y p q = q

resp_add_header-fd :
    (name value : Bytes) (ctx : RequestCtx) → SameFd ctx (resp_add_header name value ctx)
unfolding resp_add_header
resp_add_header-fd name value ctx = refl

resp_map_file_to_ctx-fd :
    (w : World) (path : Bytes) (ctx : RequestCtx) → SameFd ctx (resp_map_file_to_ctx w path ctx)
unfolding resp_map_file_to_ctx attach_mapping
resp_map_file_to_ctx-fd w path ctx =
    if-fd ctx (w.can_open path) (attach_mapping (w.map_file path ctx.response.body_len) ctx) ctx
      (mapping (w.map_file path ctx.response.body_len)) refl
  where
    mapping : (o : Option Bytes) → SameFd ctx (attach_mapping o ctx)
    mapping none = refl
    mapping (some content) = refl

pub handle_error-fd :
    (conf : ConfigData) (w : World) (ctx : RequestCtx) → SameFd ctx (handle_error conf w ctx)
unfolding handle_error attach_page resp_add_header resp_add_common_headers
handle_error-fd conf w ctx = if-fd ctx _ _ _ refl refl

handle_options-fd :
    (conf : ConfigData) (w : World) (ctx : RequestCtx) → SameFd ctx (handle_options conf w ctx)
unfolding handle_options resp_add_header resp_add_common_headers
handle_options-fd conf w ctx = refl

serve_file-fd :
    (conf : ConfigData) (w : World) (path : Bytes) (sb : Stat) (ctx : RequestCtx)
    → SameFd ctx (serve_file conf w path sb ctx)
unfolding serve_file attach_file file_headers resp_add_header resp_add_common_headers
serve_file-fd conf w path sb ctx =
    if-fd ctx _ _ _ (resp_map_file_to_ctx-fd w path (file_headers conf w path sb ctx)) refl

get_head_at-fd :
    (conf : ConfigData) (w : World) (path : Bytes) (ctx : RequestCtx)
    → SameFd ctx (get_head_at conf w path ctx)
unfolding get_head_at
get_head_at-fd conf w path ctx = elim (Option-cases (w.stat path)) [
  | inl n ↦ rw (n, get_head_at) (handle_error-fd conf w _)
  | inr (sb, s) ↦ rw (s, get_head_at) (serve_file-fd conf w path sb ctx)
]

check_request-fd : (ctx : RequestCtx) → SameFd ctx (check_request ctx)
unfolding check_request
check_request-fd ctx = ground arith

pub validate_request-fd : (ctx : RequestCtx) → SameFd ctx (validate_request ctx)
unfolding validate_request
validate_request-fd ctx =
    let named = record ctx { method = method_of (c_str ctx.h1.method) } in
    let f = check_request-fd named in ground (arith, f)

pub route_request-fd : (ctx : RequestCtx) → SameFd ctx (route_request ctx)
unfolding route_request
route_request-fd ctx = ground arith

pub if-some :
    {A : Type 0} (P : A → Type 0) (b : Bool) (x y : Option A)
    → OnSome P x
    → OnSome P y
    → OnSome P (if b then x else y)
if-some P true x y p q = p
if-some P false x y p q = q

handle_get_head-fd :
    (conf : ConfigData) (w : World) (ctx : RequestCtx)
    → OnSome (SameFd ctx) (handle_get_head conf w ctx)
unfolding handle_get_head
handle_get_head-fd conf w ctx =
    at_path (resolve_path (take path_max conf.doc_root) (c_str ctx.h1.uri) path_max)
  where
    at_path :
        (o : Option Bytes)
        → OnSome
            (SameFd ctx)
            (elim o [ none ↦ none | some local_file ↦ some (get_head_at conf w local_file ctx) ])
    at_path none = tt
    at_path (some local_file) = get_head_at-fd conf w local_file ctx

handle_static-fd :
    (conf : ConfigData) (w : World) (ctx : RequestCtx)
    → OnSome (SameFd ctx) (handle_static conf w ctx)
unfolding handle_static handle_put
handle_static-fd conf w ctx =
    if-some (SameFd ctx) (ctx.method == m_get) _ _ (handle_get_head-fd conf w ctx) (
      if-some (SameFd ctx) (ctx.method == m_head) _ _ (handle_get_head-fd conf w ctx) (
        if-some (SameFd ctx) (ctx.method == m_options) _ _ (handle_options-fd conf w ctx) (
          if-some (SameFd ctx) (ctx.method == m_put) (some (handle_put ctx)) (some ctx) refl refl)))

pub run_handler-fd :
    (conf : ConfigData) (w : World) (ctx : RequestCtx)
    → OnSome (SameFd ctx) (run_handler conf w ctx)
unfolding run_handler
run_handler-fd conf w ctx = by_handler ctx.handler
  where
    by_handler :
        (o : Option Handler)
        → OnSome (SameFd ctx) (elim o [
          | none ↦ none
          | some h ↦ elim h [
            | handle_error_fn ↦ some (handle_error conf w ctx)
            | handle_static_fn ↦ handle_static conf w ctx
          ]
        ])
    by_handler none = tt
    by_handler (some handle_error_fn) = handle_error-fd conf w ctx
    by_handler (some handle_static_fn) = handle_static-fd conf w ctx

send_body-fd :
    (ctx : RequestCtx) (n : ℕ) (sent : Bytes) (r : WriteResult) (body : Bytes)
    → SameFd ctx (send_body ctx n sent r body).1
unfolding send_body
send_body-fd ctx n sent (write_failed e) body = refl
send_body-fd ctx n sent (written k) body = ground arith

send_rest-fd :
    (ctx : RequestCtx) (writes : Writes) (n : ℕ) (sent : Bytes)
    → SameFd ctx (send_rest ctx writes n sent).1
unfolding send_rest
send_rest-fd ctx writes n sent = elim (Option-cases ctx.response.body_data) [
  | inl e ↦ rw (e, send_rest) refl
  | inr (body, e) ↦ elim (Bool-cases (ctx.method == m_get && ltb 0 ctx.response.body_len)) [
    | inl t ↦
        let r =
          send_body-fd ctx n sent (conn_write ctx.conn writes.body)
            (take ctx.response.body_len (body_bytes body)) in
        ground (arith, e, t, r)
    | inr t ↦ ground (arith, e, t)
  ]
]

send_block-fd :
    (ctx : RequestCtx) (writes : Writes) (n : ℕ) (block : Bytes) (r : WriteResult)
    → SameFd ctx (send_block ctx writes n block r).1
unfolding send_block
send_block-fd ctx writes n block (write_failed e) = refl
send_block-fd ctx writes n block (written k) =
    let kept =
      if ltb k n
      then log_event l_warn (codes "write() headers to socket was truncated!") [] ctx
      else ctx in
    send_rest-fd kept writes n (take k block) ∙ if-fd ctx (ltb k n) _ ctx refl refl

pub send_response-fd :
    (writes : Writes) (ctx : RequestCtx) → OnSome (λ r. SameFd ctx r.1) (send_response writes ctx)
unfolding send_response
send_response-fd writes ctx = elim (Option-cases (resp_build_response ctx header_buffer_size)) [
  | inl e ↦ rw (e, send_response) tt
  | inr ((n, block), e) ↦
      rw (e, send_response) (send_block-fd _ writes n block (conn_write ctx.conn writes.headers))
]

pub trans-fd :
    {A : Type 0} (ctx mid : RequestCtx) (o : Option (A × RequestCtx))
    → SameFd ctx mid
    → OnSome (λ r. SameFd mid r.1) o
    → OnSome (λ r. SameFd ctx r.1) o
trans-fd ctx mid none p q = tt
trans-fd ctx mid (some r) p q = q ∙ p
