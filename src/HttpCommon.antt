-- ===== src/HttpCommon.antt =====
-- src/http_common.c: the stages that a worker runs on a request, between the socket and the handlers.
pub mod KeepAlive
pub mod Respond
pub mod Announce
use celeritas.Prelude.{
  ℕ, ◌+◌, Option, none, some, Bool, true, false, not, ◌&&◌, ◌||◌, List, [], ◌∷◌, ◌++◌, length, take,
  ltb, leb, ◌==◌, if◌then◌else◌, Bytes,
}
use celeritas.Config.{ConfigData}
use celeritas.ConnIo.{WriteResult, written, write_failed, WriteCall, conn_write}
use celeritas.HandlerStatic.{handle_error, handle_static}
use celeritas.Http1.Read.{
  SocketEvent, ReadStatus, header_complete, socket_error, client_closed, header_too_large,
  client_too_slow, read_http_headers,
}
use celeritas.Http1.{parse_http1}
use celeritas.Response.{World, resp_build_response}
use celeritas.Text.{codes, c_str, equal, equal_nocase}
use celeritas.Types.{
  RequestCtx, Response, Protocol, proto_http2, proto_http11, Kv, Body, heap, mapped, Handler,
  handle_error_fn, handle_static_fn, m_get, l_error, l_warn, log_event, header_buffer_size,
  confirm_header_exists, get_header_value,
}
use celeritas.Types.Status.{
  status_value, sc_101_switching_protocols, sc_400_bad_request,
  sc_431_request_header_fields_too_large, sc_500_internal_server_error,
  sc_505_http_version_not_supported,
}
use celeritas.Validator.{resp_set_status}

-- The results 0 and -1.
pub data Result : Type 0 where
  success failure : Result

-- `ctx->conn->protocol == PROTO_HTTP2`
abbrev pub is_http2 : Protocol → Bool
is_http2 proto_http2 = true
is_http2 _ = false

-- `ctx->conn->protocol == PROTO_HTTP11`
abbrev pub is_http11 : Protocol → Bool
is_http11 proto_http11 = true
is_http11 _ = false

-- What follows `parse_http1` in `process_ingress`.
unfoldable pub after_parse : ℕ → RequestCtx → Result × RequestCtx
after_parse p_status ctx =
    if p_status == 1
    then (failure, resp_set_status ctx sc_101_switching_protocols)
    else if not (p_status == 0)
    then (failure, resp_set_status ctx sc_400_bad_request)
    else (success, ctx)

-- What follows `read_http_headers`: the switch over its code, the refusal of HTTP/2, and the parse.
unfoldable pub after_read : ReadStatus → RequestCtx → Option (Result × RequestCtx)
unfolding after_parse
after_read header_too_large ctx =
    some (failure, resp_set_status ctx sc_431_request_header_fields_too_large)
after_read client_closed ctx = some (failure, ctx)
after_read client_too_slow ctx = some (failure, ctx)
after_read socket_error ctx = some (failure, resp_set_status ctx sc_500_internal_server_error)
after_read header_complete ctx =
    if is_http2 ctx.conn.protocol
    then some (failure, resp_set_status ctx sc_505_http_version_not_supported)
    else elim (parse_http1 ctx (take ctx.header_bytes_read ctx.header_buffer)) [
      | none ↦ none
      | some (p_status, parsed) ↦ some (after_parse p_status parsed)
    ]

-- `process_ingress`. `none` means that it still waits when the answers of the socket end.
unfoldable pub process_ingress : List SocketEvent → RequestCtx → Option (Result × RequestCtx)
unfolding after_read
process_ingress es ctx = elim (read_http_headers es ctx) [
  | none ↦ none
  | some (status, read) ↦ after_read status read
]

-- `route_request`
unfoldable pub route_request : RequestCtx → RequestCtx
route_request ctx =
    if leb 400 ctx.status_code
    then record ctx { handler = some handle_error_fn }
    else record ctx { handler = some handle_static_fn }

-- `ctx->handler(ctx)`; `none` is undefined behaviour, as for a handler that is not set.
unfoldable pub run_handler : ConfigData → World → RequestCtx → Option RequestCtx
run_handler conf w ctx = elim ctx.handler [
  | none ↦ none
  | some handle_error_fn ↦ some (handle_error conf w ctx)
  | some handle_static_fn ↦ handle_static conf w ctx
]

-- The answers to the two writes of a response.
pub record Writes : Type 0 where
  pub headers : WriteCall
  pub body : WriteCall

-- The bytes that `body_data` points to.
abbrev pub body_bytes : Body → Bytes
body_bytes (heap bs) = bs
body_bytes (mapped bs) = bs

-- The second half of `send_response`, for a body that is there. The comparison is with the length of
-- the headers, as in the source.
unfoldable pub send_body :
    RequestCtx → ℕ → Bytes → WriteResult → Bytes → Result × RequestCtx × Bytes
send_body ctx header_len sent (write_failed e) body =
    (failure, log_event l_error (codes "write() to socket failed: %s") [] ctx, sent)
send_body ctx header_len sent (written n) body = (
  success,
  (if ltb n header_len
      then log_event l_warn (codes "write() body to socket was truncated!") [] ctx
      else ctx),
  sent ++ take n body,
)

-- `send_response` behind the write of the headers.
unfoldable pub send_rest : RequestCtx → Writes → ℕ → Bytes → Result × RequestCtx × Bytes
unfolding send_body
send_rest ctx writes header_len sent = elim ctx.response.body_data [
  | none ↦ (success, ctx, sent)
  | some body ↦
      if ctx.method == m_get && ltb 0 ctx.response.body_len
      then send_body ctx header_len sent (conn_write ctx.conn writes.body)
          (take ctx.response.body_len (body_bytes body))
      else (success, ctx, sent)
]

-- `send_response` behind the header block.
unfoldable pub send_block :
    RequestCtx → Writes → ℕ → Bytes → WriteResult → Result × RequestCtx × Bytes
unfolding send_rest
send_block ctx writes header_len block (write_failed e) =
    (failure, log_event l_error (codes "write() to socket failed: %s") [] ctx, [])
send_block ctx writes header_len block (written n) =
    send_rest
      (if ltb n header_len
        then log_event l_warn (codes "write() headers to socket was truncated!") [] ctx
        else ctx)
      writes header_len (take n block)

-- `send_response`: its result, the context and the bytes sent. `none` is a header block that leaves
-- its buffer.
unfoldable pub send_response : Writes → RequestCtx → Option (Result × RequestCtx × Bytes)
unfolding send_block
send_response writes ctx = elim (resp_build_response ctx header_buffer_size) [
  | none ↦ none
  | some (header_len, block) ↦
      let r = ctx.response in
      let built = record ctx { response = record r { header_buffer = block } } in
      some (send_block built writes header_len block (conn_write ctx.conn writes.headers))
]

-- The client's header: `strcmp("close", get_header_value(ctx, "Connection")) == 0`, if there is one.
unfoldable pub client_closes : RequestCtx → Bool
client_closes ctx =
    if confirm_header_exists ctx (codes "Connection")
    then elim (get_header_value ctx (codes "Connection")) [
      | none ↦ false
      | some v ↦ equal (codes "close") (c_str v)
    ]
    else false

-- The loop over the response headers.
unfoldable pub server_closes : List Kv → Bool
server_closes [] = false
server_closes (h ∷ hs) =
    (equal_nocase (c_str h.key) (codes "Connection")
      && equal_nocase (c_str h.value) (codes "close"))
    || server_closes hs

-- `should_keep_alive`
unfoldable pub should_keep_alive : RequestCtx → Bool
should_keep_alive ctx =
    if client_closes ctx
    then false
    else if server_closes ctx.response.headers
    then false
    else is_http11 ctx.conn.protocol
