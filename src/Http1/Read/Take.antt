-- ===== src/Http1/Read/Take.antt =====
-- What `read_http_headers` does with the bytes of one read.
use celeritas.Prelude.{
  ℕ, ◌+◌, ◌-◌, ◌≤◌, ◌≡◌, refl, Option, none, some, List, [], ◌∷◌, ◌++◌, length, take, Bytes, arith,
  append_assoc, length-append, length-take, Bool-cases, Option-cases, inl, inr, sym, ap, ◌∙◌, ◌==◌,
  ◌⊎◌,
}
use celeritas.ConnIo.{ReadResult, received, conn_read}
use celeritas.Http1.Read.{
  max_header_size, SocketEvent, ReadStatus, header_complete, header_too_large, take_bytes,
}
use celeritas.Text.{codes, c_str, find}
use celeritas.Text.Search.{find_split}
use celeritas.Types.{RequestCtx, Conn}

-- The blank line that ends a request head.
abbrev pub end_of_head : Bytes
end_of_head = codes "\r\n\r\n"

-- The bytes that a round offers.
abbrev pub offered : ReadResult → Bytes
offered (received bs) = bs
offered _ = []

-- The bytes that the peer sends over some rounds.
abbrev pub stream : Conn → List SocketEvent → Bytes
stream conn [] = []
stream conn (e ∷ es) = offered (conn_read conn e.call) ++ stream conn es

-- The reader counts the bytes of its buffer, and leaves room for a NUL.
pub record Receiving (ctx : RequestCtx) : Type 0 where
  pub counted : ctx.header_bytes_read ≡ length ctx.header_buffer
  pub room : length ctx.header_buffer ≤ 8191

-- The buffer is split behind the blank line, and the rest is counted as overshoot.
pub record Split (ctx : RequestCtx) : Type 0 where
  pub before : Bytes
  pub after : Bytes
  pub splits : ctx.header_buffer ≡ before ++ (end_of_head ++ after)
  pub head_length : ctx.header_bytes_read ≡ length (before ++ end_of_head)
  pub overshoot : ctx.body_overshoot_bytes ≡ length after

abbrev pub Ends : ReadStatus → RequestCtx → Type 0
Ends header_complete ctx = Split ctx × (length ctx.header_buffer ≤ 8191)
Ends header_too_large ctx = length ctx.header_buffer ≡ 8191
Ends _ ctx = length ctx.header_buffer ≤ 8191

c_str-prefix : (s : Bytes) → (t : Bytes) × (s ≡ c_str s ++ t)
unfolding c_str
c_str-prefix [] = ([], refl)
c_str-prefix (c ∷ s) =
    let (t, e) = c_str-prefix s in
    elim (Bool-cases (c == 0)) [ inl z ↦ (c ∷ s, rw z refl) | inr n ↦ (t, rw n (ap (◌∷◌ c) e)) ]

length-end_of_head : length end_of_head ≡ 4
unfolding codes
length-end_of_head = refl

-- The bytes that a round keeps.
abbrev pub kept : RequestCtx → Bytes → Bytes
kept ctx bs = take (max_header_size - 1 - ctx.header_bytes_read) bs

pub record Took (ctx : RequestCtx) (bs : Bytes) (out : Option ReadStatus × RequestCtx)
    : Type 0 where
  pub buffer_is : out.1.header_buffer ≡ ctx.header_buffer ++ kept ctx bs
  pub conn_is : out.1.conn ≡ ctx.conn
  pub ends :
      ((out.0 ≡ none)
        × Receiving out.1
        × (out.1.header_bytes_read ≡ ctx.header_bytes_read + length (kept ctx bs)))
      ⊎ ((out.0 ≡ some header_complete) × Split out.1 × (length out.1.header_buffer ≤ 8191))

length-kept :
    (ctx : RequestCtx) (bs : Bytes)
    → Receiving ctx
    → length (ctx.header_buffer ++ kept ctx bs) ≤ 8191
length-kept ctx bs v = omega (
  arith,
  length-append ctx.header_buffer (kept ctx bs),
  length-take (max_header_size - 1 - ctx.header_bytes_read) bs,
)

take_bytes-none :
    (ctx : RequestCtx) (bs : Bytes)
    → Receiving ctx
    → find end_of_head (c_str (ctx.header_buffer ++ kept ctx bs)) ≡ none
    → Took ctx bs (take_bytes ctx bs)
unfolding take_bytes
take_bytes-none ctx bs v e =
    rw (e, take_bytes)
      (record {
        buffer_is = refl;
        conn_is = refl;
        ends = inl (
          refl,
          omega (arith, length-append ctx.header_buffer (kept ctx bs), length-kept ctx bs v),
          refl,
        );
      })

split_of :
    (buf : Bytes) (eoh : ℕ)
    → find end_of_head (c_str buf) ≡ some eoh
    → (before after : Bytes) × (buf ≡ before ++ (end_of_head ++ after))
      × (length (before ++ end_of_head) ≡ eoh + 4)
      × (length buf ≡ eoh + 4 + length after)
split_of buf eoh e =
    let (before, after, split, at) = find_split end_of_head (c_str buf) eoh e in
    let (t, whole) = c_str-prefix buf in
    let splits : buf ≡ before ++ (end_of_head ++ (after ++ t)) =
      whole
      ∙ ap (λ s. s ++ t) split
      ∙ append_assoc before (end_of_head ++ after) t
      ∙ ap (λ s. before ++ s) (append_assoc end_of_head after t) in
    let len : length (before ++ end_of_head) ≡ eoh + 4 =
      omega (arith, length-append before end_of_head, length-end_of_head) in
    (
      before,
      after ++ t,
      splits,
      len,
      omega (
        arith,
        ap length splits,
        length-append before (end_of_head ++ (after ++ t)),
        length-append end_of_head (after ++ t),
        length-end_of_head,
      ),
    )

take_bytes-some :
    (ctx : RequestCtx) (bs : Bytes) (eoh : ℕ)
    → Receiving ctx
    → find end_of_head (c_str (ctx.header_buffer ++ kept ctx bs)) ≡ some eoh
    → Took ctx bs (take_bytes ctx bs)
unfolding take_bytes
take_bytes-some ctx bs eoh v e =
    let (before, after, splits, head, total) = split_of (ctx.header_buffer ++ kept ctx bs) eoh e in
    rw (e, take_bytes)
      (record {
        buffer_is = refl;
        conn_is = refl;
        ends = inr (
          refl,
          record {
            before = before;
            after = after;
            splits = splits;
            head_length = sym head;
            overshoot = omega (arith, total, length-append ctx.header_buffer (kept ctx bs));
          },
          length-kept ctx bs v,
        );
      })

pub take_bytes-Took :
    (ctx : RequestCtx) (bs : Bytes) → Receiving ctx → Took ctx bs (take_bytes ctx bs)
take_bytes-Took ctx bs v =
    elim (Option-cases (find end_of_head (c_str (ctx.header_buffer ++ kept ctx bs)))) [
      | inl e ↦ take_bytes-none ctx bs v e
      | inr (eoh, e) ↦ take_bytes-some ctx bs eoh v e
    ]
