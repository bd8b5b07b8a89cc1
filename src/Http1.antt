-- ===== src/Http1.antt =====
-- src/http1.c, `parse_http1`: the state machine that splits a request head into its parts.
-- The arrays of `http1_req_t` are zeroed when it runs, so an array is the list of bytes written to
-- it, and the writes of a final NUL change nothing.
pub mod Bounds
pub mod Read
pub mod Steps
pub mod RoundTrip
use celeritas.Prelude.{
  ℕ, zero, suc, ◌+◌, Bool, true, false, ◌||◌, ◌&&◌, List, [], ◌∷◌, ◌++◌, Option, none, some, ltb,
  leb, ◌==◌, if◌then◌else◌, Bytes, length,
}
use celeritas.Text.{codes, c_str, contains, equal_nocase}
use celeritas.Types.{
  ParseStep, p_state_method, p_state_uri, p_state_version, p_state_header_key, p_state_header_value,
  p_state_body, p_state_done, Kv, RequestCtx, proto_http10, l_info, log_event,
}

-- The local variables and the arrays that `dest` points into. `key` and `value` are those of the
-- entry at `header_idx`, and `headers` holds the entries before it.
pub record Parser : Type 0 where
  pub state : ParseStep
  pub count : ℕ
  pub method : Bytes
  pub uri : Bytes
  pub version : Bytes
  pub key : Bytes
  pub value : Bytes
  pub headers : List Kv
  pub header_idx : ℕ
  pub header_count : ℕ

-- `while (p < end && *p == ' ') p++`
pub skip_spaces : Bytes → Bytes
skip_spaces [] = []
skip_spaces (c ∷ cs) = if c == b' ' then skip_spaces cs else c ∷ cs

step_method : Parser → ℕ → Parser
step_method p c =
    if c == b' '
    then record p { state = p_state_uri; count = 0 }
    else if ltb p.count 15
    then record p { method = p.method ++ c ∷ []; count = p.count + 1 }
    else p

step_uri : Parser → ℕ → Parser
step_uri p c =
    if c == b' '
    then record p { state = p_state_version; count = 0 }
    else if ltb p.count 4095
    then record p { uri = p.uri ++ c ∷ []; count = p.count + 1 }
    else p

step_version : Parser → ℕ → Parser
step_version p c =
    if c == b'\r'
    then p
    else if c == b'\n'
    then record p { state = p_state_header_key; header_idx = 0; count = 0 }
    else if ltb p.count 15
    then record p { version = p.version ++ c ∷ []; count = p.count + 1 }
    else p

-- The part of a key line that reads one byte; a colon is the caller's.
step_header_key : Parser → ℕ → Parser
step_header_key p c =
    if c == b'\r'
    then p
    else if c == b'\n'
    then record p { state = p_state_body }
    else if ltb p.count 127
    then record p { key = p.key ++ c ∷ []; count = p.count + 1 }
    else p

-- At the line feed: the entry is complete.
end_header : Parser → Parser
end_header p =
    let stored = record p {
      headers = p.headers ++ record { key = p.key; value = p.value } ∷ [];
      header_idx = p.header_idx + 1;
      header_count = p.header_idx + 1;
    } in
    if leb 128 (p.header_idx + 1)
    then record stored { state = p_state_body }
    else record stored { state = p_state_header_key; key = []; value = []; count = 0 }

step_header_value : Parser → ℕ → Parser
step_header_value p c =
    if c == b'\r'
    then p
    else if c == b'\n'
    then end_header p
    else if ltb p.count 4095
    then record p { value = p.value ++ c ∷ []; count = p.count + 1 }
    else p

-- One round of the loop at byte `c`, with the bytes behind it: the parser, and the bytes left.
pub step : ParseStep → Parser → ℕ → Bytes → Parser × Bytes
unfolding step_method step_uri step_version step_header_key step_header_value end_header skip_spaces
step p_state_method p c cs = (step_method p c, cs)
step p_state_uri p c cs = (step_uri p c, cs)
step p_state_version p c cs = (step_version p c, cs)
step p_state_header_key p c cs =
    if c == b':'
    then (record p { state = p_state_header_value; count = 0 }, skip_spaces cs)
    else (step_header_key p c, cs)
step p_state_header_value p c cs = (step_header_value p c, cs)
step p_state_body p c cs = (record p { state = p_state_done }, cs)
step p_state_done p c cs = (record p { state = p_state_done }, cs)

-- `state == P_STATE_DONE`
pub is_done : ParseStep → Bool
is_done p_state_done = true
is_done _ = false

-- The loop, on fuel; `none` means that the fuel ran out.
pub parse_loop : ℕ → Parser → Bytes → Option Parser
unfolding is_done
parse_loop zero p rest = none
parse_loop (suc fuel) p [] = some p
parse_loop (suc fuel) p (c ∷ cs) =
    let (q, rest) = step p.state p c cs in
    let later = parse_loop fuel q rest in if is_done p.state then some p else later

-- The state in which the loop starts, over the zeroed arrays.
abbrev pub initial : RequestCtx → Parser
initial ctx = record {
  state = p_state_method;
  count = 0;
  method = [];
  uri = [];
  version = [];
  key = [];
  value = [];
  headers = [];
  header_idx = 0;
  header_count = ctx.h1.header_count;
}

-- The search for an upgrade to h2c.
pub asks_h2c : List Kv → Bool
asks_h2c [] = false
asks_h2c (h ∷ hs) =
    (equal_nocase (c_str h.key) (codes "Upgrade") && contains (codes "h2c") (c_str h.value))
    || asks_h2c hs

-- What follows the loop, with the value returned.
unfoldable pub finish : RequestCtx → Parser → ℕ × RequestCtx
finish ctx p =
    let parsed = record ctx {
      h1 = record {
        method = p.method;
        uri = p.uri;
        version = p.version;
        headers = p.headers;
        header_count = p.header_count;
      };
    } in
    if asks_h2c p.headers
    then (1, log_event l_info (codes "h2c upgrade detected") [] parsed)
    else if equal_nocase (c_str p.version) (codes "HTTP/1.0")
    then (0, record parsed { conn = record ctx.conn { protocol = proto_http10 } })
    else (0, parsed)

-- `parse_http1`, over the first bytes of the buffer.
unfoldable pub parse_http1 : RequestCtx → Bytes → Option (ℕ × RequestCtx)
unfolding parse_loop finish
parse_http1 ctx buf = elim (parse_loop (suc (length buf)) (initial ctx) buf) [
  | none ↦ none
  | some p ↦ some (finish ctx p)
]
