-- ===== src/Response/Size.antt =====
-- How much a header adds to the header block, and the header count.
use celeritas.Prelude.{
  ℕ, ◌+◌, ◌≤◌, ◌<◌, ◌≡◌, List, [], ◌∷◌, ◌++◌, length, take, Bytes, arith, length-append,
  length-take,
}
use celeritas.Config.{ConfigData}
use celeritas.Response.{
  World, get_http_date, header_line, status_line, resp_add_header, resp_add_common_headers,
}
use celeritas.Response.Build.{header_block, render, length-render}
use celeritas.Text.{codes, c_str}
use celeritas.Text.Decimal.{show_nat}
use celeritas.Text.Decimal.Length.{length-show_nat}
use celeritas.Types.{Kv, RequestCtx}
use celeritas.Types.Status.{http_status_to_string}
use celeritas.Types.Status.Phrases.{length-http_status_to_string}

length-c_str : (s : Bytes) → length (c_str s) ≤ length s
unfolding c_str
length-c_str [] = omega arith
length-c_str (c ∷ s) = ground (arith, length-c_str s)

length-header_line : (h : Kv) → length (header_line h) ≤ length h.key + length h.value + 4
unfolding header_line codes
length-header_line h = omega (
  arith,
  length-append (c_str h.key) (codes ": " ++ (c_str h.value ++ codes "\r\n")),
  length-append (c_str h.value) (codes "\r\n"),
  length-c_str h.key,
  length-c_str h.value,
)

length-header_block-append :
    (hs ks : List Kv)
    → length (header_block (hs ++ ks)) ≡ length (header_block hs) + length (header_block ks)
length-header_block-append [] ks = omega arith
length-header_block-append (h ∷ hs) ks = omega (
  arith,
  length-header_block-append hs ks,
  length-append (header_line h) (header_block (hs ++ ks)),
  length-append (header_line h) (header_block hs),
)

-- The headers are counted, few, and short together.
pub record IsSmall (count size : ℕ) (ctx : RequestCtx) : Type 0 where
  pub counted : ctx.response.header_count ≡ length ctx.response.headers
  pub count_le : ctx.response.header_count ≤ count
  pub size_le : length (header_block ctx.response.headers) ≤ size

pub IsSmall-add :
    (name value : Bytes) (n v count size : ℕ) (ctx : RequestCtx)
    → length name ≤ n
    → length value ≤ v
    → IsSmall count size ctx
    → IsSmall (count + 1) (size + n + v + 4) (resp_add_header name value ctx)
unfolding resp_add_header
IsSmall-add name value n v count size ctx hn hv s =
    let entry : Kv = record { key = take 128 name; value = take 4096 value } in
    record {
      counted = omega (arith, length-append ctx.response.headers (entry ∷ []), s.counted);
      count_le = omega (arith, s.count_le);
      size_le = omega (
        arith,
        s.size_le,
        length-header_block-append ctx.response.headers (entry ∷ []),
        length-append (header_line entry) [],
        length-header_line entry,
        length-take 128 name,
        length-take 4096 value,
      );
    }

-- The constant texts of the headers.
pub IsSmall-common :
    (conf : ConfigData) (w : World) (count size : ℕ) (ctx : RequestCtx)
    → length conf.server_tok ≤ 19
    → IsSmall count size ctx
    → IsSmall (count + 1 + 1) (size + 6 + 19 + 4 + 4 + 29 + 4) (resp_add_common_headers conf w ctx)
unfolding resp_add_common_headers codes
IsSmall-common conf w count size ctx t s =
    IsSmall-add (codes "Date") (get_http_date w w.now) 4 29 (count + 1) (size + 6 + 19 + 4)
      (resp_add_header (codes "Server") conf.server_tok ctx) (omega arith)
      (omega (arith, length-take 29 (w.http_date w.now)))
      (IsSmall-add (codes "Server") conf.server_tok 6 19 count size ctx (omega arith) t s)

pub length-status_line : (status : ℕ) → status < 1000 → length (status_line status) ≤ 46
unfolding status_line codes
length-status_line status h = omega (
  arith,
  length-append (codes "HTTP/1.1 ")
      (show_nat status ++ (b' ' ∷ (http_status_to_string status ++ codes "\r\n"))),
  length-append (show_nat status) (b' ' ∷ (http_status_to_string status ++ codes "\r\n")),
  length-append (http_status_to_string status) (codes "\r\n"),
  length-show_nat 2 status (omega arith),
  length-http_status_to_string status,
)

-- A status line with small headers is a small block.
pub length-render_le :
    (ctx : RequestCtx) (count size : ℕ)
    → ctx.status_code < 1000
    → IsSmall count size ctx
    → length (render ctx) ≤ size + 48
unfolding codes
length-render_le ctx count size h s =
    omega (arith, length-render ctx, length-status_line ctx.status_code h, s.size_le)
