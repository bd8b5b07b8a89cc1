-- ===== src/Validator.antt =====
-- src/validator.c: the checks on a parsed request.
pub mod Verdict
use celeritas.Prelude.{
  ℕ, Bool, true, false, not, ◌&&◌, [], ◌∷◌, bit_and, bit_or, ◌==◌, if◌then◌else◌, Bytes,
}
use celeritas.Text.{codes, c_str, equal, contains}
use celeritas.Types.{
  RequestCtx, HttpMethod, m_get, m_head, m_put, m_delete, m_trace, m_post, m_options, m_invalid,
  Protocol, proto_http10, l_warn, log_event, confirm_header_exists,
}
use celeritas.Types.Status.{
  HttpStatusCode, status_value, sc_200_ok, sc_400_bad_request, sc_403_forbidden,
  sc_405_method_not_allowed,
}

-- `resp_set_status` of src/response.c.
abbrev pub resp_set_status : RequestCtx → HttpStatusCode → RequestCtx
resp_set_status ctx status = record ctx { status_code = status_value status }

-- The ladder of `strcmp` calls.
unfoldable pub method_of : Bytes → HttpMethod
method_of method =
    if equal (codes "GET") method
    then m_get
    else if equal (codes "HEAD") method
    then m_head
    else if equal (codes "PUT") method
    then m_put
    else if equal (codes "DELETE") method
    then m_delete
    else if equal (codes "TRACE") method
    then m_trace
    else if equal (codes "POST") method
    then m_post
    else if equal (codes "OPTIONS") method
    then m_options
    else m_invalid

-- `ctx->conn->protocol != PROTO_HTTP10`
abbrev pub is_not_http10 : Protocol → Bool
is_not_http10 proto_http10 = false
is_not_http10 _ = true

-- `M_GET|M_HEAD|M_OPTIONS|M_PUT`
abbrev pub method_mask : HttpMethod
method_mask = bit_or (bit_or (bit_or m_get m_head) m_options) m_put

-- The checks that follow the method.
unfoldable pub check_request : RequestCtx → RequestCtx
check_request ctx =
    if is_not_http10 ctx.conn.protocol && not (confirm_header_exists ctx (codes "Host"))
    then log_event l_warn (codes "request does not contain Host header") []
        (resp_set_status ctx sc_400_bad_request)
    else if contains (codes "..") (c_str ctx.h1.uri)
    then resp_set_status
        (log_event l_warn (codes "potential path traversal attempt: %s") (ctx.h1.uri ∷ []) ctx)
        sc_403_forbidden
    else if bit_and ctx.method method_mask == 0
    then resp_set_status
        (log_event l_warn (codes "request for unsupported method: %s") (ctx.h1.method ∷ []) ctx)
        sc_405_method_not_allowed
    else resp_set_status ctx sc_200_ok

-- `validate_request`
unfoldable pub validate_request : RequestCtx → RequestCtx
validate_request ctx =
    let method = method_of (c_str ctx.h1.method) in
    let named = record ctx { method = method } in
    if method == m_invalid
    then resp_set_status (log_event l_warn (codes "unknown method: %s") (ctx.h1.method ∷ []) named)
        sc_400_bad_request
    else check_request named
