-- ===== src/Response/Build.antt =====
-- When `resp_build_response` stays inside its buffer, and what it writes.
use celeritas.Prelude.{
  ℕ, ◌+◌, ◌-◌, ◌^◌, ◌≤◌, ◌<◌, ◌≡◌, refl, none, some, List, [], ◌∷◌, ◌++◌, length, min, Bytes, arith,
  append_assoc, append-nil, length-append, take_all, Option-cases, inl, inr, ◌∙◌, ap₂,
}
use celeritas.Text.{codes}
use celeritas.Types.{Kv, RequestCtx}
use celeritas.Response.{
  Builder, append_text, append_headers, end_response, resp_build_response, status_line, header_line,
}

-- The header lines, one behind the other.
abbrev pub header_block : List Kv → Bytes
header_block [] = []
header_block (h ∷ hs) = header_line h ++ header_block hs

-- The whole block: status line, headers, empty line.
unfoldable pub render : RequestCtx → Bytes
render ctx = status_line ctx.status_code ++ (header_block ctx.response.headers ++ codes "\r\n")

-- The builder has written `text`, and has room for more.
record Wrote (size : ℕ) (text : Bytes) (b : Builder) : Type 0 where
  written_is : b.written ≡ text
  total_is : b.total_size ≡ length text
  room : b.total_size + b.remaining ≡ size

append_text-Wrote :
    (size : ℕ) (done text : Bytes) (b : Builder)
    → size < 2 ^ 64
    → Wrote size done b
    → length done + length text < size
    → (b' : Builder) × (append_text size text b ≡ some b') × Wrote size (done ++ text) b'
unfolding append_text
append_text-Wrote size done text b c v h = (
  record {
    written = done ++ text;
    total_size = length done + length text;
    remaining = b.remaining - length text;
  },
  ground (arith, take_all (min (length text) (b.remaining - 1)) text),
  ground (arith, length-append done text),
)

append_headers-Wrote :
    (size : ℕ) (hs : List Kv) (done : Bytes) (b : Builder)
    → size < 2 ^ 64
    → Wrote size done b
    → length done + length (header_block hs) < size
    → (b' : Builder) × (append_headers size hs b ≡ some b')
      × Wrote size (done ++ header_block hs) b'
unfolding append_headers
append_headers-Wrote size [] done b c v h = (b, refl, rw append-nil v)
append_headers-Wrote size (h ∷ hs) done b c v l =
    let len = length-append (header_line h) (header_block hs) in
    let (b1, e, v1) = append_text-Wrote size done (header_line h) b c v (omega (arith, len)) in
    let (b2, f, v2) =
      append_headers-Wrote size hs (done ++ header_line h) b1 c v1
        (omega (arith, len, length-append done (header_line h))) in
    (b2, ground arith, rw append_assoc at v2)

-- A text that is appended counts in full, written or not.
append_text_total :
    (size : ℕ) (text : Bytes) (b b' : Builder)
    → append_text size text b ≡ some b'
    → b'.total_size ≡ b.total_size + length text
unfolding append_text
append_text_total size text b b' h = ground arith

append_headers_total :
    (size : ℕ) (hs : List Kv) (b b' : Builder)
    → append_headers size hs b ≡ some b'
    → b'.total_size ≡ b.total_size + length (header_block hs)
unfolding append_headers
append_headers_total size [] b b' h = ground arith
append_headers_total size (h ∷ hs) b b' e =
    elim (Option-cases (append_text size (header_line h) b)) [
      | inl n ↦ absurd (ground arith)
      | inr (b1, f) ↦ ground (
        arith,
        append_text_total size (header_line h) b b1 f,
        append_headers_total size hs b1 b',
        length-append (header_line h) (header_block hs),
      )
    ]

start : ℕ → Builder
start size = record { written = []; total_size = 0; remaining = size }

pub length-render :
    (ctx : RequestCtx)
    → length (render ctx)
      ≡ length (status_line ctx.status_code)
        + (length (header_block ctx.response.headers) + length (codes "\r\n"))
unfolding render
length-render ctx = omega (
  arith,
  length-append (status_line ctx.status_code) (header_block ctx.response.headers ++ codes "\r\n"),
  length-append (header_block ctx.response.headers) (codes "\r\n"),
)

build_chain :
    (ctx : RequestCtx) (size : ℕ) (b1 b2 b3 : Builder)
    → append_text size (status_line ctx.status_code) (start size) ≡ some b1
    → append_headers size ctx.response.headers b1 ≡ some b2
    → append_text size (codes "\r\n") b2 ≡ some b3
    → b3.total_size < size
    → resp_build_response ctx size ≡ some (b3.total_size, b3.written)
unfolding resp_build_response end_response start
build_chain ctx size b1 b2 b3 e1 e2 e3 h = ground arith

render_is :
    (ctx : RequestCtx) (size : ℕ) (b3 : Builder)
    → Wrote size
        ((status_line ctx.status_code ++ header_block ctx.response.headers) ++ codes "\r\n")
        b3
    → (b3.written ≡ render ctx) × (b3.total_size ≡ length (render ctx))
unfolding render
render_is ctx size b3 v =
    let line = status_line ctx.status_code in
    let block = header_block ctx.response.headers in
    ground (arith, append_assoc line block (codes "\r\n"))

-- Into a buffer of less than 2^64 bytes that has room for it and a NUL, `resp_build_response` writes
-- exactly the status line, the header lines and the empty line, and returns their length.
pub resp_build_response-fits :
    (ctx : RequestCtx) (size : ℕ)
    → size < 2 ^ 64
    → length (render ctx) < size
    → resp_build_response ctx size ≡ some (length (render ctx), render ctx)
unfolding start
resp_build_response-fits ctx size c h =
    let line = status_line ctx.status_code in
    let block = header_block ctx.response.headers in
    let len = length-render ctx in
    let (b1, e1, v1) =
      append_text-Wrote size [] line (start size) c (ground arith) (omega (arith, len)) in
    let (b2, e2, v2) =
      append_headers-Wrote size ctx.response.headers line b1 c v1 (omega (arith, len)) in
    let (b3, e3, v3) =
      append_text-Wrote size (line ++ block) (codes "\r\n") b2 c v2
        (omega (arith, len, length-append line block)) in
    let (w, t) = render_is ctx size b3 v3 in
    build_chain ctx size b1 b2 b3 e1 e2 e3 (omega arith) ∙ ap₂ (λ n x. some (n, x)) t w

-- When the status line, the header lines and the empty line leave no room for a NUL in the buffer,
-- `resp_build_response` writes outside it.
pub resp_build_response-overflows :
    (ctx : RequestCtx) (size : ℕ) → size ≤ length (render ctx) → resp_build_response ctx size ≡ none
unfolding resp_build_response end_response start
resp_build_response-overflows ctx size h =
    elim (Option-cases (append_text size (status_line ctx.status_code) (start size))) [
      | inl n ↦ ground arith
      | inr (b1, e1) ↦ elim (Option-cases (append_headers size ctx.response.headers b1)) [
        | inl n ↦ ground arith
        | inr (b2, e2) ↦ elim (Option-cases (append_text size (codes "\r\n") b2)) [
          | inl n ↦ ground arith
          | inr (b3, e3) ↦ ground (
            arith,
            length-render ctx,
            append_text_total size (status_line ctx.status_code) (start size) b1 e1,
            append_headers_total size ctx.response.headers b1 b2 e2,
            append_text_total size (codes "\r\n") b2 b3 e3,
          )
        ]
      ]
    ]
