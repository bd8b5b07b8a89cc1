-- ===== src/Worker/Refused.antt =====
-- What a worker does with a request that validation refuses.
use celeritas.Prelude.{
  ℕ, ◌≤◌, ◌<◌, ◌≡◌, refl, sym, ap, ◌∙◌, Bool, true, false, ◌&&◌, some, [], length, append-nil, ◌++◌,
  take, leb, ltb, if◌then◌else◌, Bytes, arith, inl, inr, Bool-cases, Option-cases, subst, ◌==◌, ◌⊎◌,
}
use celeritas.ConnIo.{WriteResult, written, write_failed, conn_write}
use celeritas.Config.{ConfigData}
use celeritas.HandlerStatic.{handle_error, attach_page}
use celeritas.HttpCommon.{
  Result, success, failure, Writes, route_request, run_handler, send_response, send_block,
  send_rest, send_body, should_keep_alive, body_bytes, client_closes,
}
use celeritas.HttpCommon.KeepAlive.{should_keep_alive-handle_error}
use celeritas.HttpCommon.Respond.{run_handler-fits}
use celeritas.Response.{
  status_line, World, resp_build_response, resp_add_header, resp_add_common_headers,
}
use celeritas.Response.Build.{render, header_block}
use celeritas.Types.{
  LogLevel, l_error, l_warn, m_get, RequestCtx, handle_error_fn, header_buffer_size,
  confirm_header_exists, get_header_value, log_event,
}
use celeritas.Text.{codes}
use celeritas.Validator.{validate_request, check_request, resp_set_status}
use celeritas.Validator.Verdict.{
  validate_request-Verdict, unknown_method, no_host, traversal, unserved, passes,
}
use celeritas.Worker.{Answers, stopped, clean_up, settle, deliver, respond}

-- Sending changes nothing that the keep-alive decision reads, and not the status.
abbrev Kept : RequestCtx → RequestCtx → Type 0
Kept ctx out = (should_keep_alive out ≡ should_keep_alive ctx) × (out.status_code ≡ ctx.status_code)

-- A line for the log is no change.
log_event-Kept :
    (b : Bool) (level : LogLevel) (text : Bytes) (ctx : RequestCtx)
    → Kept ctx (if b then log_event level text [] ctx else ctx)
unfolding should_keep_alive client_closes confirm_header_exists get_header_value
log_event-Kept true level text ctx = (refl, refl)
log_event-Kept false level text ctx = (refl, refl)

send_body-Kept :
    (ctx : RequestCtx) (n : ℕ) (sent : Bytes) (r : WriteResult) (body : Bytes)
    → Kept ctx (send_body ctx n sent r body).1
unfolding send_body
send_body-Kept ctx n sent (write_failed e) body =
    log_event-Kept true l_error (codes "write() to socket failed: %s") ctx
send_body-Kept ctx n sent (written m) body =
    log_event-Kept (ltb m n) l_warn (codes "write() body to socket was truncated!") ctx

-- Either there is no body to send, or it is sent.
send_rest-cases :
    (ctx : RequestCtx) (w : Writes) (n : ℕ) (sent : Bytes)
    → (send_rest ctx w n sent ≡ (success, ctx, sent))
      ⊎ ((body : Bytes) × (send_rest ctx w n sent
            ≡ send_body ctx n sent (conn_write ctx.conn w.body) body))
unfolding send_rest
send_rest-cases ctx w n sent = elim (Option-cases ctx.response.body_data) [
  | inl e ↦ inl (ground (arith, e))
  | inr (b, e) ↦ elim (Bool-cases (ctx.method == m_get && ltb 0 ctx.response.body_len)) [
    | inl t ↦ inr (take ctx.response.body_len (body_bytes b), ground (arith, e, t))
    | inr t ↦ inl (ground (arith, e, t))
  ]
]

send_rest-Kept :
    (ctx : RequestCtx) (w : Writes) (n : ℕ) (sent : Bytes) → Kept ctx (send_rest ctx w n sent).1
send_rest-Kept ctx w n sent = elim (send_rest-cases ctx w n sent) [
  | inl e ↦ subst (λ r. Kept ctx r.1) (sym e) (refl, refl)
  | inr (body, e) ↦
      subst (λ r. Kept ctx r.1) (sym e)
        (send_body-Kept ctx n sent (conn_write ctx.conn w.body) body)
]

send_block-Kept :
    (ctx : RequestCtx) (w : Writes) (n : ℕ) (block : Bytes) (r : WriteResult)
    → Kept ctx (send_block ctx w n block r).1
unfolding send_block
send_block-Kept ctx w n block (write_failed e) =
    log_event-Kept true l_error (codes "write() to socket failed: %s") ctx
send_block-Kept ctx w n block (written m) =
    let noted =
      if ltb m n
      then log_event l_warn (codes "write() headers to socket was truncated!") [] ctx
      else ctx in
    let k =
      log_event-Kept (ltb m n) l_warn (codes "write() headers to socket was truncated!") ctx in
    let r = send_rest-Kept noted w n (take m block) in (r.0 ∙ k.0, r.1 ∙ k.1)

validate_request-response : (ctx : RequestCtx) → (validate_request ctx).response ≡ ctx.response
unfolding validate_request check_request resp_set_status
validate_request-response ctx = ground arith

validate_request-below : (ctx : RequestCtx) → (validate_request ctx).status_code < 1000
validate_request-below ctx = elim (validate_request-Verdict ctx) [
  | unknown_method a b k ↦ omega arith
  | no_host a b k ↦ omega arith
  | traversal a b c k ↦ omega arith
  | unserved a b c k ↦ omega arith
  | passes a b c k ↦ omega arith
]

handle_error-status :
    (conf : ConfigData) (w : World) (ctx : RequestCtx)
    → (handle_error conf w ctx).status_code ≡ ctx.status_code
unfolding handle_error attach_page resp_add_header resp_add_common_headers
handle_error-status conf w ctx = ground arith

-- A context that is not to be kept alive is cleaned up, or ends the loop at shutdown.
settle-ends :
    (conf : ConfigData) (a : Answers) (r : Result × RequestCtx × Bytes)
    → should_keep_alive r.1 ≡ false
    → settle conf a r ≡ (if a.shutting_down then stopped r.1 r.2 else clean_up r.1 r.2)
unfolding settle
settle-ends conf a (failure, ctx, sent) h = refl
settle-ends conf a (success, ctx, sent) h = rw h refl

-- What was sent begins with what the first write took of the block; without it, nothing was sent.
abbrev pub BlockSent : WriteResult → Bytes → Bytes → Type 0
BlockSent (write_failed e) block sent = sent ≡ []
BlockSent (written n) block sent = (rest : Bytes) × (sent ≡ take n block ++ rest)

send_body-after :
    (ctx : RequestCtx) (n : ℕ) (sent : Bytes) (r : WriteResult) (body : Bytes)
    → (rest : Bytes) × ((send_body ctx n sent r body).2 ≡ sent ++ rest)
unfolding send_body
send_body-after ctx n sent (write_failed e) body = ([], sym (append-nil sent))
send_body-after ctx n sent (written m) body = (take m body, refl)

send_rest-after :
    (ctx : RequestCtx) (w : Writes) (n : ℕ) (sent : Bytes)
    → (rest : Bytes) × ((send_rest ctx w n sent).2 ≡ sent ++ rest)
send_rest-after ctx w n sent = elim (send_rest-cases ctx w n sent) [
  | inl e ↦ ([], ap (λ r. r.2) e ∙ sym (append-nil sent))
  | inr (body, e) ↦
      let (rest, f) = send_body-after ctx n sent (conn_write ctx.conn w.body) body in
      (rest, ap (λ r. r.2) e ∙ f)
]

send_block-BlockSent :
    (ctx : RequestCtx) (w : Writes) (n : ℕ) (block : Bytes) (r : WriteResult)
    → BlockSent r block (send_block ctx w n block r).2
unfolding send_block
send_block-BlockSent ctx w n block (write_failed e) = refl
send_block-BlockSent ctx w n block (written m) =
    send_rest-after
      (if ltb m n
        then log_event l_warn (codes "write() headers to socket was truncated!") [] ctx
        else ctx)
      w n (take m block)

header_buffer-Kept :
    (ctx : RequestCtx) (block : Bytes)
    → Kept ctx (record ctx { response = record ctx.response { header_buffer = block } })
unfolding should_keep_alive client_closes confirm_header_exists get_header_value
header_buffer-Kept ctx block = (refl, refl)

-- A block that fits its buffer is sent.
send_response-Kept :
    (w : Writes) (ctx : RequestCtx) (n : ℕ) (block : Bytes)
    → resp_build_response ctx header_buffer_size ≡ some (n, block)
    → (r : Result × RequestCtx × Bytes) × (send_response w ctx ≡ some r)
      × Kept ctx r.1
      × BlockSent (conn_write ctx.conn w.headers) block r.2
unfolding send_response
send_response-Kept w ctx n block e =
    let built = record ctx { response = record ctx.response { header_buffer = block } } in
    let k = send_block-Kept built w n block (conn_write ctx.conn w.headers) in
    let b = header_buffer-Kept ctx block in
    (
      send_block built w n block (conn_write ctx.conn w.headers),
      rw (e, send_response) refl,
      (k.0 ∙ b.0, k.1 ∙ b.1),
      send_block-BlockSent built w n block (conn_write ctx.conn w.headers),
    )

deliver-ends :
    (conf : ConfigData) (a : Answers) (ctx : RequestCtx) (n : ℕ) (block : Bytes)
    → resp_build_response ctx header_buffer_size ≡ some (n, block)
    → should_keep_alive ctx ≡ false
    → (out : RequestCtx) × (sent : Bytes) × (deliver conf a ctx
        ≡ some (if a.shutting_down then stopped out sent else clean_up out sent))
      × (out.status_code ≡ ctx.status_code)
      × BlockSent (conn_write ctx.conn a.writes.headers) block sent
unfolding deliver
deliver-ends conf a ctx n block e h =
    let (r, s, k, b) = send_response-Kept a.writes ctx n block e in
    (r.1, r.2, rw (s, deliver) (ap (λ f. some f) (settle-ends conf a r (k.0 ∙ h))), k.1, b)

-- A refused request goes to `handle_error`.
run_handler-refused :
    (conf : ConfigData) (w : World) (ctx : RequestCtx)
    → 400 ≤ ctx.status_code
    → run_handler conf w (route_request ctx)
      ≡ some (handle_error conf w (record ctx { handler = some handle_error_fn }))
unfolding run_handler route_request
run_handler-refused conf w ctx h =
    let t : leb 400 ctx.status_code ≡ true = ground arith in rw t refl

-- The context with the error page for what `validate_request` makes of a request.
abbrev pub error_page : ConfigData → Answers → RequestCtx → RequestCtx
error_page conf a ctx =
    handle_error conf a.world (record (validate_request ctx) { handler = some handle_error_fn })

-- A request that `validate_request` gives an error status, on a response without headers and with a
-- server token that fits its array, always comes to the end of its round, whatever the writes return.
-- What was sent begins with as much of the header block of the error page as the first write took, and
-- is nothing if that write failed; the block has the status in its first line. The round then goes to
-- the clean-up, or ends the loop when the server shuts down; the connection is not parked.
pub respond-refused :
    (conf : ConfigData) (a : Answers) (ctx : RequestCtx)
    → length conf.server_tok ≤ 19
    → ctx.response.headers ≡ []
    → ctx.response.header_count ≡ 0
    → 400 ≤ (validate_request ctx).status_code
    → (out : RequestCtx) × (sent : Bytes) × (respond conf a ctx
        ≡ some (if a.shutting_down then stopped out sent else clean_up out sent))
      × (out.status_code ≡ (validate_request ctx).status_code)
      × BlockSent
          (conn_write (error_page conf a ctx).conn a.writes.headers)
          (render (error_page conf a ctx))
          sent
      × ((tail : Bytes) × (render (error_page conf a ctx)
            ≡ status_line (validate_request ctx).status_code ++ tail))
unfolding respond render
respond-refused conf a ctx t h c e =
    let v = validate_request ctx in
    let same : v.response ≡ ctx.response = validate_request-response ctx in
    let routed = record v { handler = some handle_error_fn } in
    let answered = handle_error conf a.world routed in
    let ran = run_handler-refused conf a.world v e in
    let kept : answered.status_code ≡ v.status_code = handle_error-status conf a.world routed in
    let below : v.status_code < 1000 = validate_request-below ctx in
    let fits =
      run_handler-fits conf a.world v answered t (ap (λ r. r.headers) same ∙ h)
        (ap (λ r. r.header_count) same ∙ c) ran (omega arith) in
    let (out, sent, d, s, b) =
      deliver-ends conf a answered (length (render answered)) (render answered) fits.1
        (should_keep_alive-handle_error conf a.world routed) in
    let tail = header_block answered.response.headers ++ codes "\r\n" in
    (out, sent, rw (ran, respond) d, s ∙ kept, b, (tail, ap (λ n. status_line n ++ tail) kept))
