-- ===== src/Types.antt =====
-- src/types.h: the enumerations and structures that the stages of a request share, and the helpers
-- of src/util.c that look a request header up.
pub mod Status
use celeritas.Prelude.{
  ℕ, ◌+◌, ◌++◌, ◌∷◌, Bool, true, false, List, [], Option, none, some, Bytes, bit_or, if◌then◌else◌,
  ◌^◌,
}
use celeritas.Text.{equal_nocase, c_str}

-- `protocol_t`
pub data Protocol : Type 0 where
  proto_unknown proto_http10 proto_http11 proto_http2 : Protocol

-- `log_level_t`, without the access level, which no call of the log macros uses.
pub data LogLevel : Type 0 where
  l_debug l_info l_warn l_error : LogLevel

-- `log_target_t`
pub data LogTarget : Type 0 where
  log_target_access log_target_event : LogTarget

-- `parse_step_t`
pub data ParseStep : Type 0 where
  p_state_method p_state_uri p_state_version p_state_header_key : ParseStep
  p_state_header_value p_state_body p_state_done : ParseStep

-- `http_method_t`: one bit for each method; 0 is the value of a zeroed context.
abbrev pub HttpMethod : Type 0
HttpMethod = ℕ

abbrev pub m_get : HttpMethod
m_get = 1

abbrev pub m_head : HttpMethod
m_head = 2

abbrev pub m_post : HttpMethod
m_post = 4

abbrev pub m_put : HttpMethod
m_put = 8

abbrev pub m_delete : HttpMethod
m_delete = 16

abbrev pub m_connect : HttpMethod
m_connect = 32

abbrev pub m_options : HttpMethod
m_options = 64

abbrev pub m_trace : HttpMethod
m_trace = 128

abbrev pub m_invalid : HttpMethod
m_invalid = 256

-- `HEADER_BUFFER_SIZE`, which is also the size of the receive buffer.
abbrev pub header_buffer_size : ℕ
header_buffer_size = 8192

-- `kv_t`: the bytes written to the two zeroed arrays, of 128 and 4096 bytes.
pub record Kv : Type 0 where
  pub key : Bytes
  pub value : Bytes

-- `http1_req_t`, without the body, which nothing sets.
pub record Http1Req : Type 0 where
  pub method : Bytes
  pub uri : Bytes
  pub version : Bytes
  pub headers : List Kv
  pub header_count : ℕ

-- What `body_data` points to.
pub data Body : Type 0 where
  heap : Bytes → Body
  mapped : Bytes → Body

-- The response structure of `request_ctx_t`.
pub record Response : Type 0 where
  pub headers : List Kv
  pub header_count : ℕ
  pub header_buffer : Bytes
  pub body_len : ℕ
  pub body_data : Option Body
  pub is_mmap : Bool

-- `conn_t`; `ssl` is whether the pointer is set.
pub record Conn : Type 0 where
  pub fd : ℕ
  pub is_tls : Bool
  pub remote_ip : Bytes
  pub remote_port : ℕ
  pub ssl : Bool
  pub protocol : Protocol
  pub keepalive_deadline : ℕ

-- One call of a log macro: level, format string and the strings that it takes.
pub record LogLine : Type 0 where
  pub level : LogLevel
  pub format : Bytes
  pub args : List Bytes

-- The two handlers that `ctx->handler` is set to.
pub data Handler : Type 0 where
  handle_error_fn handle_static_fn : Handler

-- `request_ctx_t`. `log` lists the event lines that the stages send to the logger.
pub record RequestCtx : Type 0 where
  pub conn : Conn
  pub log : List LogLine
  pub header_buffer : Bytes
  pub header_bytes_read : ℕ
  pub body_overshoot_bytes : ℕ
  pub body_overshoot_start : Option ℕ
  pub status_code : ℕ
  pub method : HttpMethod
  pub start_time : ℕ
  pub h1 : Http1Req
  pub response : Response
  pub handler : Option Handler

-- A context as `calloc` leaves it, with its connection and start time set.
abbrev pub fresh_ctx : Conn → ℕ → RequestCtx
fresh_ctx conn start = record {
  conn = conn;
  log = [];
  header_buffer = [];
  header_bytes_read = 0;
  body_overshoot_bytes = 0;
  body_overshoot_start = none;
  status_code = 0;
  method = 0;
  start_time = start;
  h1 = record { method = []; uri = []; version = []; headers = []; header_count = 0 };
  response = record {
    headers = [];
    header_count = 0;
    header_buffer = [];
    body_len = 0;
    body_data = none;
    is_mmap = false;
  };
  handler = none;
}

-- The log macros.
abbrev pub log_event : LogLevel → Bytes → List Bytes → RequestCtx → RequestCtx
log_event level format args ctx = record ctx {
  log = ctx.log ++ record { level = level; format = format; args = args } ∷ [];
}

-- The first value whose key equals `key`, in any letter case.
unfoldable pub find_header : List Kv → Bytes → Option Bytes
find_header [] key = none
find_header (h ∷ hs) key =
    if equal_nocase (c_str h.key) key then some h.value else find_header hs key

-- `get_header_value`
unfoldable pub get_header_value : RequestCtx → Bytes → Option Bytes
get_header_value ctx key = find_header ctx.h1.headers key

-- Whether some key equals `key`, in any letter case.
unfoldable pub has_header : List Kv → Bytes → Bool
has_header [] key = false
has_header (h ∷ hs) key = if equal_nocase (c_str h.key) key then true else has_header hs key

-- `confirm_header_exists`
unfoldable pub confirm_header_exists : RequestCtx → Bytes → Bool
confirm_header_exists ctx key = has_header ctx.h1.headers key

-- `PATH_MAX` of <limits.h>.
abbrev pub path_max : ℕ
path_max = 4096
