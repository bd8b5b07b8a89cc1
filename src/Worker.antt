-- ===== src/Worker.antt =====
-- One round of `worker_thread` in src/threadpool.c: what becomes of a connection that was popped from
-- the work queue. The lines for the access log are left out.
pub mod Refused
pub mod SameFd
pub mod ParkedFd
use celeritas.Prelude.{
  ℕ, ◌+◌, Bool, true, false, not, ◌&&◌, Option, none, some, List, [], ltb, if◌then◌else◌, Bytes,
}
use celeritas.Config.{ConfigData}
use celeritas.HandlerStatic.{Release, cleanup_request_resources}
use celeritas.Http1.Read.{SocketEvent}
use celeritas.HttpCommon.{
  Result, success, failure, Writes, process_ingress, route_request, run_handler, send_response,
  should_keep_alive,
}
use celeritas.Response.{World}
use celeritas.Socket.{Peek, HandshakeStep, demux_protocol, perform_tls_handshake}
use celeritas.Types.{Conn, Protocol, proto_unknown, RequestCtx, fresh_ctx, log_event, l_error}
use celeritas.Text.{codes}
use celeritas.Validator.{validate_request}

-- What the outside answers during the round: to `recv` on the memory of its buffer, to
-- `SSL_is_init_finished`, to the handshake, the reads and the writes; the clock at the start, in
-- microseconds, and at the end, in seconds; and whether the server shuts down.
pub record Answers : Type 0 where
  pub memory : Bytes
  pub peek : Peek
  pub init_finished : Bool
  pub handshake : List HandshakeStep
  pub events : List SocketEvent
  pub writes : Writes
  pub world : World
  pub start_us : ℕ
  pub end_time : ℕ
  pub shutting_down : Bool

-- `parked` is the push to the wait queue, with a context that is not freed. `closed` is the clean-up:
-- the connection is closed and the body released. `stopped` closes the connection and ends the loop,
-- and does not free the context. The bytes are those that the round has sent.
pub data Fate : Type 0 where
  parked : Conn → RequestCtx → Bytes → Fate
  closed : RequestCtx → Release → Bytes → Fate
  stopped : RequestCtx → Bytes → Fate

-- From the label `cleanup` on.
unfoldable pub clean_up : RequestCtx → Bytes → Fate
clean_up ctx sent = closed ctx (cleanup_request_resources ctx) sent

-- Behind `send_response`.
unfoldable pub settle : ConfigData → Answers → Result × RequestCtx × Bytes → Fate
settle conf a (failure, ctx, sent) = if a.shutting_down then stopped ctx sent else clean_up ctx sent
settle conf a (success, ctx, sent) =
    let c = ctx.conn in
    if should_keep_alive ctx
    then parked (record c { keepalive_deadline = a.end_time + conf.keepalive_timeout }) ctx sent
    else if a.shutting_down
    then stopped ctx sent
    else clean_up ctx sent

-- The response to a request whose handler has run.
unfoldable pub deliver : ConfigData → Answers → RequestCtx → Option Fate
deliver conf a ctx = elim (send_response a.writes ctx) [
  | none ↦ none
  | some r ↦ some (settle conf a r)
]

-- Validation, routing, the handler and the response.
unfoldable pub respond : ConfigData → Answers → RequestCtx → Option Fate
respond conf a ctx = elim (run_handler conf a.world (route_request (validate_request ctx))) [
  | none ↦ none
  | some answered ↦ deliver conf a answered
]

-- Behind `process_ingress`: an error status is sent, and the connection closed.
unfoldable pub after_ingress : ConfigData → Answers → Result × RequestCtx → Option Fate
after_ingress conf a (success, ctx) = respond conf a ctx
after_ingress conf a (failure, ctx) =
    if ltb 0 ctx.status_code
    then elim (send_response a.writes ctx) [
      | none ↦ none
      | some (r, sent_ctx, sent) ↦ some (clean_up sent_ctx sent)
    ]
    else some (clean_up ctx [])

unfoldable pub is_unknown : Protocol → Bool
is_unknown proto_unknown = true
is_unknown _ = false

-- The TLS handshake, where it is still to be done.
unfoldable pub secure : Answers → Conn → Option Bool
secure a conn =
    if conn.is_tls && conn.ssl && not a.init_finished
    then perform_tls_handshake a.handshake
    else some true

-- A round, for the connection `conn`. `none` means that a call still waits when the answers end, or
-- one of the failures that the stages name.
unfoldable pub worker_round : ConfigData → Answers → Conn → Option Fate
worker_round conf a conn =
    let known = if is_unknown conn.protocol then demux_protocol a.memory a.peek conn else conn in
    let ctx = fresh_ctx known a.start_us in
    elim (secure a known) [
      | none ↦ none
      | some shaken ↦
          if shaken
          then elim (process_ingress a.events ctx) [ none ↦ none | some r ↦ after_ingress conf a r ]
          else some (clean_up (log_event l_error (codes "perform_tls_handshake failed") [] ctx) [])
    ]
