-- ===== src/Worker/ParkedFd.antt =====
-- The descriptor of the connection that a round of a worker ends with.
use celeritas.Prelude.{
  ℕ, ◌≡◌, refl, ◌∙◌, Bool, true, false, Option, none, some, [], Bytes, ltb, OnSome, arith,
  if◌then◌else◌, ◌+◌,
}
use celeritas.Config.{ConfigData}
use celeritas.HttpCommon.{
  Result, success, failure, process_ingress, route_request, run_handler, send_response,
  should_keep_alive,
}
use celeritas.Socket.{Peek, peeked, peek_closed, peek_failed, demux_protocol}
use celeritas.Types.{RequestCtx, Conn, fresh_ctx, log_event, l_error}
use celeritas.Validator.{validate_request}
use celeritas.Text.{codes}
use celeritas.Worker.{
  Answers, Fate, parked, closed, stopped, clean_up, settle, deliver, respond, after_ingress,
  is_unknown, secure, worker_round,
}
use celeritas.Worker.SameFd.{
  SameFd, if-some, validate_request-fd, route_request-fd, run_handler-fd, send_response-fd,
}
use celeritas.Worker.SameFd.Ingress.{process_ingress-fd}

-- The descriptor of the connection that a round ends with.
abbrev pub fate_fd : Fate → ℕ
fate_fd (parked c ctx sent) = c.fd
fate_fd (closed ctx release sent) = ctx.conn.fd
fate_fd (stopped ctx sent) = ctx.conn.fd

abbrev pub FateFd : ℕ → Fate → Type 0
FateFd fd fate = fate_fd fate ≡ fd

settle-fd :
    (conf : ConfigData) (a : Answers) (r : Result × RequestCtx × Bytes)
    → FateFd r.1.conn.fd (settle conf a r)
unfolding settle clean_up
settle-fd conf a (failure, ctx, sent) = ended a.shutting_down
  where
    ended : (b : Bool) → FateFd ctx.conn.fd (if b then stopped ctx sent else clean_up ctx sent)
    ended true = refl
    ended false = refl
settle-fd conf a (success, ctx, sent) = kept (should_keep_alive ctx) a.shutting_down
  where
    kept :
        (k b : Bool)
        → FateFd ctx.conn.fd (
            if k
            then parked
                (record ctx.conn { keepalive_deadline = a.end_time + conf.keepalive_timeout })
                ctx
                sent
            else if b
            then stopped ctx sent
            else clean_up ctx sent)
    kept true b = refl
    kept false true = refl
    kept false false = refl

deliver-fd :
    (conf : ConfigData) (a : Answers) (ctx : RequestCtx)
    → OnSome (FateFd ctx.conn.fd) (deliver conf a ctx)
unfolding deliver
deliver-fd conf a ctx = by_send (send_response a.writes ctx) (send_response-fd a.writes ctx)
  where
    by_send :
        (o : Option (Result × RequestCtx × Bytes))
        → OnSome (λ r. SameFd ctx r.1) o
        → OnSome (FateFd ctx.conn.fd) (elim o [ none ↦ none | some r ↦ some (settle conf a r) ])
    by_send none p = tt
    by_send (some r) p = settle-fd conf a r ∙ p

on_fd : (n m : ℕ) (o : Option Fate) → m ≡ n → OnSome (FateFd m) o → OnSome (FateFd n) o
on_fd n m none e p = tt
on_fd n m (some f) e p = p ∙ e

respond-fd :
    (conf : ConfigData) (a : Answers) (ctx : RequestCtx)
    → OnSome (FateFd ctx.conn.fd) (respond conf a ctx)
unfolding respond
respond-fd conf a ctx =
    by_handler (run_handler conf a.world routed) (run_handler-fd conf a.world routed)
  where
    routed : RequestCtx
    routed = route_request (validate_request ctx)

    by_handler :
        (o : Option RequestCtx)
        → OnSome (SameFd (route_request (validate_request ctx))) o
        → OnSome
            (FateFd ctx.conn.fd)
            (elim o [ none ↦ none | some answered ↦ deliver conf a answered ])
    by_handler none p = tt
    by_handler (some answered) p =
        on_fd ctx.conn.fd answered.conn.fd (deliver conf a answered)
          (p ∙ route_request-fd (validate_request ctx) ∙ validate_request-fd ctx)
          (deliver-fd conf a answered)

after_ingress-fd :
    (conf : ConfigData) (a : Answers) (r : Result × RequestCtx)
    → OnSome (FateFd r.1.conn.fd) (after_ingress conf a r)
unfolding after_ingress clean_up
after_ingress-fd conf a (success, ctx) = respond-fd conf a ctx
after_ingress-fd conf a (failure, ctx) =
    if-some (FateFd ctx.conn.fd) (ltb 0 ctx.status_code) _ (some (clean_up ctx []))
      (by_send (send_response a.writes ctx) (send_response-fd a.writes ctx)) refl
  where
    by_send :
        (o : Option (Result × RequestCtx × Bytes))
        → OnSome (λ r. SameFd ctx r.1) o
        → OnSome
            (FateFd ctx.conn.fd)
            (elim o [ none ↦ none | some (r, sent_ctx, sent) ↦ some (clean_up sent_ctx sent) ])
    by_send none p = tt
    by_send (some (r, sent_ctx, sent)) p = p

demux_protocol-fd :
    (memory : Bytes) (peek : Peek) (conn : Conn) → (demux_protocol memory peek conn).fd ≡ conn.fd
unfolding demux_protocol
demux_protocol-fd memory (peeked bs) conn = ground arith
demux_protocol-fd memory peek_closed conn = refl
demux_protocol-fd memory peek_failed conn = refl

ingress-fd :
    (conf : ConfigData) (a : Answers) (ctx : RequestCtx)
    → OnSome
        (FateFd ctx.conn.fd)
        (elim (process_ingress a.events ctx) [ none ↦ none | some r ↦ after_ingress conf a r ])
ingress-fd conf a ctx = by_read (process_ingress a.events ctx) (process_ingress-fd a.events ctx)
  where
    by_read :
        (o : Option (Result × RequestCtx))
        → OnSome (λ r. SameFd ctx r.1) o
        → OnSome (FateFd ctx.conn.fd) (elim o [ none ↦ none | some r ↦ after_ingress conf a r ])
    by_read none p = tt
    by_read (some r) p =
        on_fd ctx.conn.fd r.1.conn.fd (after_ingress conf a r) p (after_ingress-fd conf a r)

-- Whatever a client sends and the system answers, a round of a worker ends with the connection that
-- was popped: the one that it parks, or whose context it cleans up or gives up, has its descriptor.
pub worker_round-FateFd :
    (conf : ConfigData) (a : Answers) (conn : Conn)
    → OnSome (FateFd conn.fd) (worker_round conf a conn)
unfolding worker_round clean_up
worker_round-FateFd conf a conn =
    by_secure (if is_unknown conn.protocol then demux_protocol a.memory a.peek conn else conn)
      (detected (is_unknown conn.protocol))
      (secure a (if is_unknown conn.protocol then demux_protocol a.memory a.peek conn else conn))
  where
    detected : (b : Bool) → (if b then demux_protocol a.memory a.peek conn else conn).fd ≡ conn.fd
    detected true = demux_protocol-fd a.memory a.peek conn
    detected false = refl

    by_secure :
        (known : Conn)
        → known.fd ≡ conn.fd
        → (o : Option Bool)
        → OnSome (FateFd conn.fd) (elim o [
          | none ↦ none
          | some shaken ↦
              if shaken
              then elim (process_ingress a.events (fresh_ctx known a.start_us)) [
                | none ↦ none
                | some r ↦ after_ingress conf a r
              ]
              else some (
                  clean_up
                    (log_event l_error
                      (codes "perform_tls_handshake failed")
                      []
                      (fresh_ctx known a.start_us))
                    [])
        ])
    by_secure known e none = tt
    by_secure known e (some true) =
        on_fd conn.fd known.fd _ e (ingress-fd conf a (fresh_ctx known a.start_us))
    by_secure known e (some false) = e
