-- ===== src/Logger/Access.antt =====
-- `log_access` and the prefix of an event line, `l_priority`, in src/logger.c.
use celeritas.Prelude.{
  ℕ, ◌%◌, ◌^◌, ◌≡◌, ◌≤◌, ◌<◌, refl, none, some, [], ◌∷◌, ◌++◌, Bytes, length, length-append, arith,
  if◌then◌else◌,
}
use celeritas.Text.{codes, c_str}
use celeritas.Text.Decimal.{show_nat, show_int}
use celeritas.Types.{
  LogLevel, l_debug, l_info, l_warn, l_error, log_target_access, RequestCtx, get_header_value,
  confirm_header_exists,
}
use celeritas.Logger.{LogEntry, log_line_max, format_entry, Iovec, sort_batch, is_access}

-- `l_priority`, for the levels of the log macros.
unfoldable pub l_priority : LogLevel → Bytes
l_priority l_debug = codes "[debug]"
l_priority l_info = codes " [info]"
l_priority l_warn = codes " [warn]"
l_priority l_error = codes "[error]"

-- The User-Agent, or nothing.
unfoldable pub user_agent : RequestCtx → Bytes
user_agent ctx =
    if confirm_header_exists ctx (codes "User-Agent")
    then (elim (get_header_value ctx (codes "User-Agent")) [ none ↦ [] | some v ↦ c_str v ])
    else []

-- The text of `log_access` from the version on. `latency` is the time in microseconds, and `tid` the
-- hexadecimal digits of the thread. The unit is μs in UTF-8.
unfoldable pub access_tail : Bytes → ℕ → Bytes → RequestCtx → Bytes
access_tail date latency tid ctx =
    c_str ctx.h1.version
    ++ codes "\" "
    ++ show_int ctx.status_code
    ++ codes " "
    ++ show_int (ctx.response.body_len % 2 ^ 32)
    ++ codes " ["
    ++ show_nat latency
    ++ 206 ∷ 188 ∷ codes "s] - "
    ++ user_agent ctx
    ++ codes " - tid: 0x"
    ++ tid
    ++ codes "\n"

-- The whole text.
unfoldable pub access_text : Bytes → ℕ → Bytes → RequestCtx → Bytes
access_text date latency tid ctx =
    c_str ctx.conn.remote_ip
    ++ codes " - - ["
    ++ date
    ++ codes "]  \""
    ++ c_str ctx.h1.method
    ++ codes " "
    ++ c_str ctx.h1.uri
    ++ codes " "
    ++ access_tail date latency tid ctx

-- The entry that `log_access` gives to `log_write`.
unfoldable pub log_access : Bytes → ℕ → Bytes → RequestCtx → LogEntry
log_access date latency tid ctx = format_entry log_target_access (access_text date latency tid ctx)

access_text-uri :
    (date : Bytes) (latency : ℕ) (tid : Bytes) (ctx : RequestCtx)
    → length (c_str ctx.h1.uri) < length (access_text date latency tid ctx)
unfolding access_text codes
access_text-uri date latency tid ctx =
    let uri = c_str ctx.h1.uri in
    let before =
      c_str ctx.conn.remote_ip
      ++ codes " - - ["
      ++ date
      ++ codes "]  \""
      ++ c_str ctx.h1.method
      ++ codes " " in
    let after = access_tail date latency tid ctx in
    let whole : length (access_text date latency tid ctx)
        ≡ length (before ++ uri ++ codes " " ++ after) =
      refl in
    let e₁ = length-append (before ++ uri ++ codes " ") after in
    let e₂ = length-append (before ++ uri) (codes " ") in
    let e₃ = length-append before uri in let one : length (codes " ") ≡ 1 = refl in omega arith

-- The access line of a request whose URI is as long as a log line is given to `writev` with a length
-- beyond the array that holds it: bytes of the stack behind the line are written to the access log.
pub log_access-overreads :
    (date : Bytes) (latency : ℕ) (tid : Bytes) (ctx : RequestCtx)
    → log_line_max ≤ length (c_str ctx.h1.uri)
    → (iov : Iovec) × ((sort_batch (log_access date latency tid ctx ∷ [])).0 ≡ iov ∷ [])
      × (log_line_max < iov.iov_len)
unfolding log_access format_entry sort_batch is_access
log_access-overreads date latency tid ctx h =
    let l = access_text-uri date latency tid ctx in
    (
      record {
        iov_base = (log_access date latency tid ctx).line;
        iov_len = length (access_text date latency tid ctx);
      },
      refl,
      omega arith,
    )
