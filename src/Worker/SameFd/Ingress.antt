-- ===== src/Worker/SameFd/Ingress.antt =====
-- That reading and parsing do not change the descriptor of the connection.
use celeritas.Prelude.{
  ℕ, suc, refl, ◌∙◌, Option, none, some, List, [], ◌∷◌, Bytes, length, take, ltb, OnSome, arith,
  ◌-◌,
}
use celeritas.ConnIo.{ReadResult, received, end_of_stream, read_failed, eintr, eagain, conn_read}
use celeritas.Http1.{finish, parse_http1, parse_loop, initial, Parser}
use celeritas.Http1.Read.{
  SocketEvent, PollResult, ReadStatus, read_http_headers, read_round, take_bytes, max_header_size,
  header_complete, socket_error, client_closed, header_too_large, client_too_slow,
}
use celeritas.HttpCommon.{failure, after_parse, after_read, process_ingress, is_http2}
use celeritas.Types.{RequestCtx}
use celeritas.Validator.{resp_set_status}
use celeritas.Types.Status.{sc_505_http_version_not_supported}
use celeritas.Worker.SameFd.{SameFd, if-some, trans-fd}

finish-fd : (ctx : RequestCtx) (p : Parser) → SameFd ctx (finish ctx p).1
unfolding finish
finish-fd ctx p = ground arith

read_round-fd :
    (ctx : RequestCtx) (r : ReadResult) (poll : PollResult) → SameFd ctx (read_round ctx r poll).1
unfolding read_round take_bytes
read_round-fd ctx (received bs) poll = ground arith
read_round-fd ctx end_of_stream poll = refl
read_round-fd ctx (read_failed eintr) poll = refl
read_round-fd ctx (read_failed eagain) poll = refl
read_round-fd ctx (read_failed _) poll = refl

parse_http1-fd :
    (ctx : RequestCtx) (buf : Bytes) → OnSome (λ r. SameFd ctx r.1) (parse_http1 ctx buf)
unfolding parse_http1
parse_http1-fd ctx buf = by_loop (parse_loop (suc (length buf)) (initial ctx) buf)
  where
    by_loop :
        (o : Option Parser)
        → OnSome (λ r. SameFd ctx r.1) (elim o [ none ↦ none | some p ↦ some (finish ctx p) ])
    by_loop none = tt
    by_loop (some p) = finish-fd ctx p

read_http_headers-fd :
    (es : List SocketEvent) (ctx : RequestCtx)
    → OnSome (λ r. SameFd ctx r.1) (read_http_headers es ctx)
unfolding read_http_headers
read_http_headers-fd [] ctx =
    if-some (λ r. SameFd ctx r.1) (ltb ctx.header_bytes_read (max_header_size - 1)) none
      (some (header_too_large, ctx)) tt refl
read_http_headers-fd (e ∷ es) ctx =
    let round = read_round ctx (conn_read ctx.conn e.call) e.poll in
    let same = read_round-fd ctx (conn_read ctx.conn e.call) e.poll in
    if-some (λ r. SameFd ctx r.1) (ltb ctx.header_bytes_read (max_header_size - 1)) _
      (some (header_too_large, ctx))
      (by_round round.0 round.1 same (
        trans-fd ctx round.1 (read_http_headers es round.1) same (read_http_headers-fd es round.1)))
      refl
  where
    by_round :
        (o : Option ReadStatus) (later : RequestCtx)
        → SameFd ctx later
        → OnSome (λ r. SameFd ctx r.1) (read_http_headers es later)
        → OnSome
            (λ r. SameFd ctx r.1)
            (elim o [ none ↦ read_http_headers es later | some status ↦ some (status, later) ])
    by_round none later p q = q
    by_round (some status) later p q = p

after_parse-fd : (n : ℕ) (ctx : RequestCtx) → SameFd ctx (after_parse n ctx).1
unfolding after_parse
after_parse-fd n ctx = ground arith

after_read-fd :
    (status : ReadStatus) (ctx : RequestCtx) → OnSome (λ r. SameFd ctx r.1) (after_read status ctx)
unfolding after_read
after_read-fd header_too_large ctx = refl
after_read-fd client_closed ctx = refl
after_read-fd client_too_slow ctx = refl
after_read-fd socket_error ctx = refl
after_read-fd header_complete ctx =
    let buf = take ctx.header_bytes_read ctx.header_buffer in
    if-some (λ r. SameFd ctx r.1) (is_http2 ctx.conn.protocol)
      (some (failure, resp_set_status ctx sc_505_http_version_not_supported)) _ refl
      (by_parse (parse_http1 ctx buf) (parse_http1-fd ctx buf))
  where
    by_parse :
        (o : Option (ℕ × RequestCtx))
        → OnSome (λ r. SameFd ctx r.1) o
        → OnSome
            (λ r. SameFd ctx r.1)
            (elim o [ none ↦ none | some (p_status, parsed) ↦ some (after_parse p_status parsed) ])
    by_parse none p = tt
    by_parse (some (n, parsed)) p = after_parse-fd n parsed ∙ p

pub process_ingress-fd :
    (es : List SocketEvent) (ctx : RequestCtx)
    → OnSome (λ r. SameFd ctx r.1) (process_ingress es ctx)
unfolding process_ingress
process_ingress-fd es ctx = by_read (read_http_headers es ctx) (read_http_headers-fd es ctx)
  where
    by_read :
        (o : Option (ReadStatus × RequestCtx))
        → OnSome (λ r. SameFd ctx r.1) o
        → OnSome
            (λ r. SameFd ctx r.1)
            (elim o [ none ↦ none | some (status, read) ↦ after_read status read ])
    by_read none p = tt
    by_read (some (status, read)) p =
        trans-fd ctx read (after_read status read) p (after_read-fd status read)
