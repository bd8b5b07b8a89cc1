-- ===== src/Http1/Read.antt =====
-- `read_http_headers` of src/http1.c: the head of a request is read into the buffer, across any
-- number of reads, interruptions and waits.
pub mod Take
pub mod Rounds
pub mod Complete
use celeritas.Prelude.{
  ℕ, ◌+◌, ◌-◌, Option, none, some, List, [], ◌∷◌, ◌++◌, length, take, ltb, if◌then◌else◌, Bytes,
}
use celeritas.ConnIo.{
  Errno, eintr, eagain, ReadResult, received, end_of_stream, read_failed, ReadCall, conn_read,
}
use celeritas.Text.{codes, c_str, find}
use celeritas.Types.{RequestCtx}

-- `MAX_HEADER_SIZE`
abbrev pub max_header_size : ℕ
max_header_size = 8192

-- What `poll` answers: its timeout passed, it failed, or there is data.
pub data PollResult : Type 0 where
  poll_timeout poll_failed poll_ready : PollResult

-- What the socket answers to one round: to the read, and to the `poll` that may follow.
pub record SocketEvent : Type 0 where
  pub call : ReadCall
  pub poll : PollResult

-- The codes 0, -1, -2, -3 and -4.
pub data ReadStatus : Type 0 where
  header_complete socket_error client_closed header_too_large client_too_slow : ReadStatus

-- The received bytes go behind the others, as many as were asked for. If the end of the head is
-- among the bytes before a NUL, the round is the last.
unfoldable pub take_bytes : RequestCtx → Bytes → Option ReadStatus × RequestCtx
take_bytes ctx bs =
    let room = max_header_size - 1 - ctx.header_bytes_read in
    let buf = ctx.header_buffer ++ take room bs in
    let read = ctx.header_bytes_read + length (take room bs) in
    elim (find (codes "\r\n\r\n") (c_str buf)) [
      | none ↦ (none, record ctx { header_buffer = buf; header_bytes_read = read })
      | some eoh ↦
          let overshoot = read - (eoh + 4) in
          (
            some header_complete,
            record ctx {
              header_buffer = buf;
              body_overshoot_bytes = overshoot;
              body_overshoot_start = if ltb 0 overshoot then some (eoh + 4) else none;
              header_bytes_read = eoh + 4;
            },
          )
    ]

-- The wait for more data.
unfoldable pub wait_more : PollResult → Option ReadStatus
wait_more poll_timeout = some client_too_slow
wait_more poll_failed = some socket_error
wait_more poll_ready = none

-- One round, behind the loop's test: a status if the function returns.
unfoldable pub read_round : RequestCtx → ReadResult → PollResult → Option ReadStatus × RequestCtx
unfolding take_bytes wait_more
read_round ctx (received bs) poll = take_bytes ctx bs
read_round ctx end_of_stream poll = (some client_closed, ctx)
read_round ctx (read_failed eintr) poll = (none, ctx)
read_round ctx (read_failed eagain) poll = (wait_more poll, ctx)
read_round ctx (read_failed _) poll = (some socket_error, ctx)

-- `read_http_headers` over what the socket answers in turn. `none` means that it still waits when
-- the answers end.
unfoldable pub read_http_headers : List SocketEvent → RequestCtx → Option (ReadStatus × RequestCtx)
unfolding read_round
read_http_headers [] ctx =
    if ltb ctx.header_bytes_read (max_header_size - 1) then none else some (header_too_large, ctx)
read_http_headers (e ∷ es) ctx =
    let round = read_round ctx (conn_read ctx.conn e.call) e.poll in
    let later = read_http_headers es round.1 in
    if ltb ctx.header_bytes_read (max_header_size - 1)
    then elim round.0 [ none ↦ later | some status ↦ some (status, round.1) ]
    else some (header_too_large, ctx)
