-- ===== src/Http1/Read/Rounds.antt =====
-- What one round of `read_http_headers` does.
use celeritas.Prelude.{
  ℕ, zero, suc, ◌+◌, ◌-◌, ◌≡◌, refl, Option, none, some, [], ◌++◌, length, take, arith, append-nil,
  inl, inr, sym, ap, ◌∙◌, ◌⊎◌,
}
use celeritas.ConnIo.{
  eintr, eagain, eio, other_errno, ReadResult, received, end_of_stream, read_failed,
}
use celeritas.Http1.Read.{
  max_header_size, PollResult, poll_timeout, poll_failed, poll_ready, ReadStatus, header_complete,
  socket_error, client_closed, client_too_slow, read_round,
}
use celeritas.Http1.Read.Take.{offered, Receiving, Ends, kept, take_bytes-Took}
use celeritas.Types.{RequestCtx}

-- One round with a result of each kind.
pub record Rounded (ctx : RequestCtx) (r : ReadResult) (out : Option ReadStatus × RequestCtx)
    : Type 0 where
  pub buffer_is : out.1.header_buffer ≡ ctx.header_buffer ++ kept ctx (offered r)
  pub conn_is : out.1.conn ≡ ctx.conn
  pub ends :
      ((out.0 ≡ none)
        × Receiving out.1
        × (out.1.header_bytes_read ≡ ctx.header_bytes_read + length (kept ctx (offered r))))
      ⊎ ((status : ReadStatus) × (out.0 ≡ some status) × Ends status out.1)

take-nil : (n : ℕ) → take {A = ℕ} n [] ≡ []
take-nil zero = refl
take-nil (suc n) = refl

-- A round that receives nothing changes nothing.
quiet :
    (ctx : RequestCtx) (r : ReadResult) (out : Option ReadStatus)
    → Receiving ctx
    → offered r ≡ []
    → (out ≡ none) ⊎ ((status : ReadStatus) × (out ≡ some status) × Ends status ctx)
    → Rounded ctx r (out, ctx)
quiet ctx r out v o k =
    let same : kept ctx (offered r) ≡ [] =
      ap (kept ctx) o ∙ take-nil (max_header_size - 1 - ctx.header_bytes_read) in
    record {
      buffer_is = sym (append-nil ctx.header_buffer) ∙ ap (λ s. ctx.header_buffer ++ s) (sym same);
      conn_is = refl;
      ends = elim k [ inl n ↦ inl (n, v, omega (arith, ap length same)) | inr e ↦ inr e ];
    }

pub read_round-Rounded :
    (ctx : RequestCtx) (r : ReadResult) (poll : PollResult)
    → Receiving ctx
    → Rounded ctx r (read_round ctx r poll)
unfolding read_round
read_round-Rounded ctx (received bs) poll v =
    let t = take_bytes-Took ctx bs v in
    record {
      buffer_is = t.buffer_is;
      conn_is = t.conn_is;
      ends = elim t.ends [ inl go ↦ inl go | inr (e, s, l) ↦ inr (header_complete, e, (s, l)) ];
    }
read_round-Rounded ctx end_of_stream poll v =
    quiet ctx end_of_stream (some client_closed) v refl (inr (client_closed, refl, v.room))
read_round-Rounded ctx (read_failed eintr) poll v =
    quiet ctx (read_failed eintr) none v refl (inl refl)
read_round-Rounded ctx (read_failed eagain) poll_timeout v =
    quiet ctx (read_failed eagain) (some client_too_slow) v refl
      (inr (client_too_slow, refl, v.room))
read_round-Rounded ctx (read_failed eagain) poll_failed v =
    quiet ctx (read_failed eagain) (some socket_error) v refl (inr (socket_error, refl, v.room))
read_round-Rounded ctx (read_failed eagain) poll_ready v =
    quiet ctx (read_failed eagain) none v refl (inl refl)
read_round-Rounded ctx (read_failed eio) poll v =
    quiet ctx (read_failed eio) (some socket_error) v refl (inr (socket_error, refl, v.room))
read_round-Rounded ctx (read_failed other_errno) poll v =
    quiet ctx (read_failed other_errno) (some socket_error) v refl
      (inr (socket_error, refl, v.room))
