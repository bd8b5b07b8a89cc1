-- ===== src/Response.antt =====
-- src/response.c: the header array of a response and the header block that is sent.
pub mod Build
pub mod Size
use celeritas.Prelude.{
  ℕ, ◌+◌, ◌-◌, ◌^◌, ◌%◌, Option, none, some, true, Bool, List, [], ◌∷◌, ◌++◌, length, take, min,
  leb, ltb, ◌==◌, if◌then◌else◌, Bytes,
}
use celeritas.Config.{ConfigData}
use celeritas.Text.{codes, c_str}
use celeritas.Text.Decimal.{show_nat}
use celeritas.Types.{Kv, Response, RequestCtx, mapped}
use celeritas.Types.Status.{http_status_to_string}

-- `struct stat`, as far as it is read.
pub record Stat : Type 0 where
  pub st_size : ℕ
  pub st_mtime : ℕ

-- What the operating system answers during one request: `time`, `gmtime_r` with `strftime` in the
-- IMF-fixdate format, `stat`, whether `open` succeeds, and the content that `mmap` gives of so many
-- bytes of a file, or a failure.
pub record World : Type 0 where
  pub now : ℕ
  pub http_date : ℕ → Bytes
  pub stat : Bytes → Option Stat
  pub can_open : Bytes → Bool
  pub map_file : Bytes → ℕ → Option Bytes

-- `get_http_date_now` and `get_http_date_time_t` of src/util.c fill a buffer of 30 bytes.
abbrev pub get_http_date : World → ℕ → Bytes
get_http_date w time = take 29 (w.http_date time)

-- `resp_add_header`. `strncpy` stops at the size of the array.
unfoldable pub resp_add_header : Bytes → Bytes → RequestCtx → RequestCtx
resp_add_header name value ctx =
    let r = ctx.response in
    record ctx {
      response = record r {
        headers = r.headers ++ record { key = take 128 name; value = take 4096 value } ∷ [];
        header_count = r.header_count + 1;
      };
    }

-- `resp_add_common_headers`
unfoldable pub resp_add_common_headers : ConfigData → World → RequestCtx → RequestCtx
resp_add_common_headers conf w ctx =
    resp_add_header (codes "Date") (get_http_date w w.now)
      (resp_add_header (codes "Server") conf.server_tok ctx)

-- The buffer of `resp_build_response`: the bytes before `p`, `p - buf`, and `remaining`.
pub record Builder : Type 0 where
  pub written : Bytes
  pub total_size : ℕ
  pub remaining : ℕ

-- `remaining -= n` on `size_t`
abbrev pub sub_size : ℕ → ℕ → ℕ
sub_size a b = (a + 2 ^ 64 - b) % 2 ^ 64

-- One `n = snprintf(p, remaining, …); p += n; total_size += n; remaining -= n`, where `text` is the
-- whole formatted text and the buffer has `size` bytes. `none` is a write outside the buffer.
pub append_text : ℕ → Bytes → Builder → Option Builder
append_text size text b =
    let n = length text in
    let kept = min n (b.remaining - 1) in
    let b' : Builder = record {
      written = b.written ++ take kept text;
      total_size = b.total_size + n;
      remaining = sub_size b.remaining n;
    } in
    if b.remaining == 0
    then some (record b' { written = b.written })
    else if leb (b.total_size + kept + 1) size
    then some b'
    else none

-- The status line.
unfoldable pub status_line : ℕ → Bytes
status_line status =
    codes "HTTP/1.1 "
    ++ (show_nat status ++ (b' ' ∷ (http_status_to_string status ++ codes "\r\n")))

-- One header line.
unfoldable pub header_line : Kv → Bytes
header_line h = c_str h.key ++ (codes ": " ++ (c_str h.value ++ codes "\r\n"))

-- The loop over the headers.
pub append_headers : ℕ → List Kv → Builder → Option Builder
append_headers size [] b = some b
append_headers size (h ∷ hs) b = elim (append_text size (header_line h) b) [
  | none ↦ none
  | some b' ↦ append_headers size hs b'
]

-- The end of `resp_build_response`: the empty line, and `buf[total_size] = '\0'`.
pub end_response : ℕ → Builder → Option (ℕ × Bytes)
end_response size b = elim (append_text size (codes "\r\n") b) [
  | none ↦ none
  | some b' ↦ if ltb b'.total_size size then some (b'.total_size, b'.written) else none
]

-- `resp_build_response` into a buffer of `size` bytes: the length returned and the bytes written.
pub resp_build_response : RequestCtx → ℕ → Option (ℕ × Bytes)
resp_build_response ctx size =
    elim (append_text size (status_line ctx.status_code)
      (record { written = []; total_size = 0; remaining = size })) [
        | none ↦ none
        | some b ↦ elim (append_headers size ctx.response.headers b) [
          | none ↦ none
          | some b' ↦ end_response size b'
        ]
      ]

-- What `mmap` gives is stored; where it fails, there is no body.
unfoldable pub attach_mapping : Option Bytes → RequestCtx → RequestCtx
attach_mapping none ctx =
    let r = ctx.response in record ctx { response = record r { body_data = none; body_len = 0 } }
attach_mapping (some content) ctx =
    let r = ctx.response in record ctx { response = record r { body_data = some (mapped content) } }

-- `resp_map_file_to_ctx`; where `open` fails it leaves the response alone.
unfoldable pub resp_map_file_to_ctx : World → Bytes → RequestCtx → RequestCtx
resp_map_file_to_ctx w filepath ctx =
    if w.can_open filepath
    then attach_mapping (w.map_file filepath ctx.response.body_len) ctx
    else ctx
