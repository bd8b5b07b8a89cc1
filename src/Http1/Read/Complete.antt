-- ===== src/Http1/Read/Complete.antt =====
-- What the buffer holds when `read_http_headers` returns.
use celeritas.Prelude.{
  ℕ, zero, suc, ◌+◌, ◌-◌, ◌<◌, ◌≡◌, refl, Option, none, some, List, [], ◌∷◌, ◌++◌, length, take,
  drop, ltb, Bytes, arith, append_assoc, take-append-drop, true, false, Bool-cases, inl, inr, sym,
  ap, ◌∙◌, subst, ltb→lt, ltb-false→le,
}
use mathlib.Core.Option.{some-injective}
use celeritas.ConnIo.{conn_read}
use celeritas.Http1.Read.{
  max_header_size, SocketEvent, ReadStatus, header_too_large, read_round, read_http_headers,
}
use celeritas.Http1.Read.Rounds.{Rounded, read_round-Rounded}
use celeritas.Http1.Read.Take.{offered, stream, Receiving, Ends, kept}
use celeritas.Types.{RequestCtx}

-- What holds when the function returns: the buffer is in order for the status, and it holds the
-- first bytes of what was there and what was sent.
pub record Returned (ctx : RequestCtx) (es : List SocketEvent) (status : ReadStatus)
    (out : RequestCtx) : Type 0 where
  pub unread : Bytes
  pub in_order : ctx.header_buffer ++ stream ctx.conn es ≡ out.header_buffer ++ unread
  pub ends : Ends status out

in_order_step :
    (n : ℕ) (buf bs rest : Bytes) → buf ++ (bs ++ rest) ≡ (buf ++ take n bs) ++ (drop n bs ++ rest)
in_order_step n buf bs rest =
    ap (λ s. buf ++ (s ++ rest)) (sym (take-append-drop n bs))
    ∙ ap (λ s. buf ++ s) (append_assoc (take n bs) (drop n bs) rest)
    ∙ sym (append_assoc buf (take n bs) (drop n bs ++ rest))

full :
    (es : List SocketEvent) (ctx : RequestCtx)
    → ltb ctx.header_bytes_read 8191 ≡ false
    → read_http_headers es ctx ≡ some (header_too_large, ctx)
unfolding read_http_headers
full [] ctx h = ground arith
full (e ∷ es) ctx h = ground arith

-- The round at the head of the answers.
abbrev round_of : SocketEvent → RequestCtx → Option ReadStatus × RequestCtx
round_of e ctx = read_round ctx (conn_read ctx.conn e.call) e.poll

goes_on :
    (e : SocketEvent) (es : List SocketEvent) (ctx : RequestCtx)
    → ltb ctx.header_bytes_read 8191 ≡ true
    → (round_of e ctx).0 ≡ none
    → read_http_headers (e ∷ es) ctx ≡ read_http_headers es (round_of e ctx).1
unfolding read_http_headers
goes_on e es ctx h n = rw (h, read_http_headers) (rw n refl)

stops :
    (e : SocketEvent) (es : List SocketEvent) (ctx : RequestCtx) (status : ReadStatus)
    → ltb ctx.header_bytes_read 8191 ≡ true
    → (round_of e ctx).0 ≡ some status
    → read_http_headers (e ∷ es) ctx ≡ some (status, (round_of e ctx).1)
unfolding read_http_headers
stops e es ctx status h n = rw (h, read_http_headers) (rw n refl)

-- The round at the head of the answers leaves these bytes to be read.
left_over : SocketEvent → RequestCtx → Bytes
left_over e ctx =
    drop (max_header_size - 1 - ctx.header_bytes_read) (offered (conn_read ctx.conn e.call))

round_in_order :
    (e : SocketEvent) (es : List SocketEvent) (ctx : RequestCtx)
    → Rounded ctx (conn_read ctx.conn e.call) (round_of e ctx)
    → ctx.header_buffer ++ stream ctx.conn (e ∷ es)
      ≡ (round_of e ctx).1.header_buffer ++ (left_over e ctx ++ stream ctx.conn es)
unfolding left_over
round_in_order e es ctx r =
    in_order_step (max_header_size - 1 - ctx.header_bytes_read) ctx.header_buffer
      (offered (conn_read ctx.conn e.call)) (stream ctx.conn es)
    ∙ ap
        (λ s.
          s
          ++ (drop (max_header_size - 1 - ctx.header_bytes_read)
                (offered (conn_read ctx.conn e.call))
              ++ stream ctx.conn es))
        (sym r.buffer_is)

drop_short : (n : ℕ) (bs : Bytes) → length (take n bs) < n → drop n bs ≡ []
drop_short zero bs h = absurd (omega arith)
drop_short (suc n) [] h = refl
drop_short (suc n) (b ∷ bs) h = drop_short n bs (omega arith)

-- When the loop goes on below its limit, nothing is left over.
nothing_left :
    (e : SocketEvent) (ctx : RequestCtx)
    → Receiving ctx
    → (round_of e ctx).1.header_bytes_read
      ≡ ctx.header_bytes_read + length (kept ctx (offered (conn_read ctx.conn e.call)))
    → (round_of e ctx).1.header_bytes_read < 8191
    → left_over e ctx ≡ []
unfolding left_over
nothing_left e ctx v counted h =
    drop_short (max_header_size - 1 - ctx.header_bytes_read) (offered (conn_read ctx.conn e.call))
      (omega arith)

Returned-cong :
    {ctx : RequestCtx} {es : List SocketEvent} {status status' : ReadStatus} {out out' : RequestCtx}
    → ◌≡◌ {A = Option (ReadStatus × RequestCtx)} (some (status, out)) (some (status', out'))
    → Returned ctx es status out
    → Returned ctx es status' out'
Returned-cong {ctx} {es} p r = subst (λ x. Returned ctx es x.0 x.1) (some-injective _ _ p) r

full-Returned :
    (ctx : RequestCtx) (es : List SocketEvent)
    → Receiving ctx
    → ltb ctx.header_bytes_read 8191 ≡ false
    → Returned ctx es header_too_large ctx
full-Returned ctx es v h = record {
  unread = stream ctx.conn es;
  in_order = refl;
  ends = omega (arith, ltb-false→le ctx.header_bytes_read 8191 h);
}

-- The head of the answers goes on, and the rest is known.
onward-Returned :
    (e : SocketEvent) (es : List SocketEvent) (ctx : RequestCtx) {status : ReadStatus}
    {out : RequestCtx}
    → Receiving ctx
    → Rounded ctx (conn_read ctx.conn e.call) (round_of e ctx)
    → (round_of e ctx).1.header_bytes_read
      ≡ ctx.header_bytes_read + length (kept ctx (offered (conn_read ctx.conn e.call)))
    → (round_of e ctx).1.header_bytes_read < 8191
    → Returned (round_of e ctx).1 es status out
    → Returned ctx (e ∷ es) status out
onward-Returned e es ctx v r counted h later = record {
  unread = later.unread;
  in_order =
      round_in_order e es ctx r
      ∙ ap (λ s. (round_of e ctx).1.header_buffer ++ (s ++ stream ctx.conn es))
          (nothing_left e ctx v counted h)
      ∙ ap (λ c. (round_of e ctx).1.header_buffer ++ stream c es) (sym r.conn_is)
      ∙ later.in_order;
  ends = later.ends;
}

-- The head of the answers fills the buffer, or ends the loop.
last-Returned :
    (e : SocketEvent) (es : List SocketEvent) (ctx : RequestCtx) (status : ReadStatus)
    → Rounded ctx (conn_read ctx.conn e.call) (round_of e ctx)
    → Ends status (round_of e ctx).1
    → Returned ctx (e ∷ es) status (round_of e ctx).1
last-Returned e es ctx status r ends = record {
  unread = left_over e ctx ++ stream ctx.conn es;
  in_order = round_in_order e es ctx r;
  ends = ends;
}

-- When `read_http_headers` returns, its buffer holds the first of the bytes sent, in order, at most
-- 8191; for a complete head the buffer is split behind a blank line, and the length of the head and
-- of the overshoot are the lengths of the two parts; a head is too large only when 8191 bytes were
-- read.
pub read_http_headers-Returned :
    (es : List SocketEvent) (ctx : RequestCtx) (status : ReadStatus) (out : RequestCtx)
    → Receiving ctx
    → read_http_headers es ctx ≡ some (status, out)
    → Returned ctx es status out
read_http_headers-Returned [] ctx status out v h =
    elim (Bool-cases (ltb ctx.header_bytes_read 8191)) [
      | inl t ↦ absurd (unfold read_http_headers in ground arith)
      | inr f ↦ Returned-cong (sym (full [] ctx f) ∙ h) (full-Returned ctx [] v f)
    ]
read_http_headers-Returned (e ∷ es) ctx status out v h =
    elim (Bool-cases (ltb ctx.header_bytes_read 8191)) [
      | inr f ↦ Returned-cong (sym (full (e ∷ es) ctx f) ∙ h) (full-Returned ctx (e ∷ es) v f)
      | inl t ↦
          let r = read_round-Rounded ctx (conn_read ctx.conn e.call) e.poll v in
          elim r.ends [
            | inr (st, n, ends) ↦
                Returned-cong (sym (stops e es ctx st t n) ∙ h) (last-Returned e es ctx st r ends)
            | inl (n, w, counted) ↦
                let later = sym (goes_on e es ctx t n) ∙ h in
                elim (Bool-cases (ltb (round_of e ctx).1.header_bytes_read 8191)) [
                  | inl room ↦
                      onward-Returned e es ctx v r counted
                        (ltb→lt (round_of e ctx).1.header_bytes_read 8191 room)
                        (read_http_headers-Returned es (round_of e ctx).1 status out w later)
                  | inr f ↦ Returned-cong (sym (full es (round_of e ctx).1 f) ∙ later) (
                      last-Returned e es ctx header_too_large r
                        (full-Returned (round_of e ctx).1 [] w f).ends)
                ]
          ]
    ]
