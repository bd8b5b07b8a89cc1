-- ===== src/Listener.antt =====
-- The listener threads of src/threadpool.c, `listener_thread`: one round of the loop.
pub mod Pushed
use celeritas.Prelude.{ℕ, Bool, true, false, Option, none, some, ltb, if◌then◌else◌}
use celeritas.Types.{Conn}
use celeritas.Socket.Accept.{AcceptAnswers, zero_conn, accept_connection}
use celeritas.WorkQueue.{WorkQueue, queue_push}

-- What a round comes to: the thread ends, and closes a descriptor or none; it sleeps and tries again;
-- or it pushes the connection, for which it waits while the queue is full.
pub data ListenerRound : Type 0 where
  ends : Option ℕ → ListenerRound
  sleeps : Conn → ListenerRound
  push_waits : Conn → ListenerRound
  pushed : Conn → WorkQueue → ListenerRound

-- The call of `queue_push`.
unfoldable pub push_conn : WorkQueue → Conn → ListenerRound
push_conn q conn = elim (queue_push q conn) [
  | none ↦ push_waits conn
  | some later ↦ pushed conn later
]

-- The body of the loop after `accept_connection`, with its result.
unfoldable pub after_accept : Bool → WorkQueue → Bool × Conn → ListenerRound
after_accept shutting_down q r =
    if shutting_down
    then ends (if ltb 0 r.1.fd then some r.1.fd else none)
    else (if r.0 then push_conn q r.1 else sleeps r.1)

-- One round. `shutting_down` is the flag after `accept_connection`.
unfoldable pub listener_round : Bool → AcceptAnswers → Bool → WorkQueue → ListenerRound
listener_round is_tls answers shutting_down q =
    after_accept shutting_down q (accept_connection answers is_tls zero_conn)
