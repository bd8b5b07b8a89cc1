-- ===== src/Tests/Queues.antt =====
-- The connection queues, the pool of kept-alive connections and the ring of the log.
use celeritas.Prelude.{
  ℕ, zero, suc, ap, sym, subst, ◌≤◌, length, Bytes, Bool, true, ◌<◌, ◌≡◌, refl, false, none, some,
  List, [], ◌∷◌, arith,
}
use celeritas.Types.{Conn, RequestCtx, log_target_event}
use celeritas.WorkQueue.{WorkQueue, queue_init, queue_push}
use celeritas.WorkQueue.Fifo.{Represents}
use celeritas.WorkQueue.Interleaving.{Reaches, begin, push, Accounts, Reaches-Accounts}
use celeritas.ConnPool.{ConnPool, pool_remove_by_fd, pool_sweep_expired, pool_nearest_timeout_ms}
use celeritas.ConnPool.Bag.{contents, Removed, pool_remove_by_fd-Removed}
use celeritas.ConnPool.Sweep.{
  Swept, Nearest, pool_sweep_expired-Swept, pool_nearest_timeout_ms-Nearest,
}
use celeritas.Logger.{
  Iovec, sort_batch, log_line_max, LogEntry, LogRing, stored, log_write, log_write_awake,
}
use celeritas.Logger.Pending.{Pending, WroteBehind, log_write-WroteBehind, log_write_awake-loses}
use celeritas.Logger.Drained.{LogAnswers, logger_thread, logger_thread-drains}
use celeritas.Logger.Spins.{logger_thread-spins}
use celeritas.WaitRoom.{Room, drain}
use celeritas.WaitRoom.Drain.{drain-spins}
use celeritas.WaitRoom.Tick.{Watch, Ticked, tick}
use celeritas.WaitRoom.Handled.{TickOk, tick-TickOk}
use celeritas.Tests.{a_conn, a_ctx}
use celeritas.Text.{c_str}
use celeritas.Logger.Access.{log_access, log_access-overreads}

abbrev memory : List Conn
memory = a_conn 7 10 ∷ a_conn 8 20 ∷ a_conn 9 30 ∷ []

-- Two slots in use.
abbrev a_queue : WorkQueue
a_queue = record {
  buf = memory;
  capacity = 3;
  head = 0;
  tail = 2;
  count = 2;
  shutting_down = false;
}

a_queue-Represents : Represents a_queue (a_conn 7 10 ∷ a_conn 8 20 ∷ [])
a_queue-Represents = record {
  storage = omega arith;
  head_in = omega arith;
  tail_is = refl;
  count_is = refl;
  count_le = omega arith;
  holds = (refl, (refl, tt));
}

abbrev no_conns : WorkQueue
no_conns = record {
  buf = memory;
  capacity = 3;
  head = 0;
  tail = 0;
  count = 0;
  shutting_down = false;
}

no_conns-Represents : Represents no_conns []
no_conns-Represents = record {
  storage = omega arith;
  head_in = omega arith;
  tail_is = refl;
  count_is = refl;
  count_le = omega arith;
  holds = tt;
}

abbrev pushed : WorkQueue
pushed = record no_conns { buf = a_conn 4 0 ∷ a_conn 8 20 ∷ a_conn 9 30 ∷ []; tail = 1; count = 1 }

pushed-reached : Reaches no_conns (a_conn 4 0 ∷ []) [] pushed
unfolding queue_push
pushed-reached = push (a_conn 4 0) begin refl

Reaches-Accounts_example : Accounts (a_conn 4 0 ∷ []) [] pushed
unfolding queue_init
Reaches-Accounts_example = Reaches-Accounts memory 3 (omega arith) (omega arith) refl pushed-reached

abbrev a_pool : ConnPool
a_pool = record { items = memory; count = 2; capacity = 3 }

pool_remove_by_fd-Removed_example : Removed a_pool 7 (pool_remove_by_fd (a_conn 0 0) a_pool 7)
pool_remove_by_fd-Removed_example =
    pool_remove_by_fd-Removed (a_conn 0 0) a_pool 7 (omega arith, refl)

pool_sweep_expired-Swept_example : Swept a_pool 15 [] (pool_sweep_expired (a_conn 0 0) a_pool 15)
pool_sweep_expired-Swept_example =
    pool_sweep_expired-Swept (a_conn 0 0) a_pool 15 (omega arith, refl)

pool_nearest_timeout_ms-Nearest_example :
    Nearest (contents a_pool) 5 (pool_nearest_timeout_ms a_pool 5)
pool_nearest_timeout_ms-Nearest_example =
    pool_nearest_timeout_ms-Nearest a_pool 5 (omega arith)
      ((omega arith, omega arith), ((omega arith, omega arith), tt))

abbrev an_entry : LogEntry
an_entry = record { target = log_target_event; len = 1; line = b'e' ∷ [] }

-- A ring of four slots with one entry.
abbrev a_ring : LogRing
a_ring = record {
  entries = an_entry ∷ an_entry ∷ an_entry ∷ an_entry ∷ [];
  ring_size = 4;
  head = 0;
  tail = 1;
  shutdown = false;
}

a_ring-Pending : Pending a_ring 2 (an_entry ∷ [])
a_ring-Pending = record {
  size_is = refl;
  storage = omega arith;
  head_in = omega arith;
  tail_is = refl;
  room = omega arith;
  holds = (refl, tt);
}

log_write-WroteBehind_example :
    WroteBehind a_ring 2 (an_entry ∷ []) an_entry (log_write a_ring an_entry)
log_write-WroteBehind_example =
    log_write-WroteBehind a_ring 2 (an_entry ∷ []) an_entry a_ring-Pending

log_write_awake-loses_example :
    (later : LogRing) × (log_write_awake a_ring an_entry 1 ≡ stored later)
    × Pending later 2 (an_entry ∷ [])
log_write_awake-loses_example =
    log_write_awake-loses a_ring 2 (an_entry ∷ []) an_entry a_ring-Pending refl refl

-- The ring at shutdown.
abbrev shut_ring : LogRing
shut_ring = record a_ring { shutdown = true }

shut_ring-Pending : Pending shut_ring 2 (an_entry ∷ [])
shut_ring-Pending = record {
  size_is = refl;
  storage = omega arith;
  head_in = omega arith;
  tail_is = refl;
  room = omega arith;
  holds = (refl, tt);
}

abbrev log_answers : Bool → LogAnswers
log_answers event_ok = record {
  access_ok = λ i. true;
  event_ok = λ i. event_ok;
  warning = λ i. b'!' ∷ [];
}

logger_thread-drains_example :
    logger_thread (log_answers true) 0 2 shut_ring ≡ some (sort_batch (an_entry ∷ []))
logger_thread-drains_example =
    logger_thread-drains (log_answers true) 0 2 shut_ring 2 (an_entry ∷ []) (λ i. refl) (λ i. refl)
      shut_ring-Pending refl (omega arith)

logger_thread-spins_example : logger_thread (log_answers false) 0 9 shut_ring ≡ none
unfolding celeritas.Logger.is_access
logger_thread-spins_example =
    logger_thread-spins (log_answers false) 0 9 shut_ring 2 [] an_entry (λ i. refl)
      shut_ring-Pending refl

abbrev a_room : Room
a_room = record { pool = a_pool; closed = [] }

-- The empty queue at shutdown.
abbrev ended : WorkQueue
ended = record no_conns { shutting_down = true }

ended-Represents : Represents ended []
ended-Represents = record {
  storage = omega arith;
  head_in = omega arith;
  tail_is = refl;
  count_is = refl;
  count_le = omega arith;
  holds = tt;
}

drain-spins_example : drain (a_conn 0 0) (λ fd. true) 9 ended a_room (a_conn 0 0) ≡ none
drain-spins_example =
    drain-spins (a_conn 0 0) (λ fd. true) 9 ended a_room (a_conn 0 0) ended-Represents refl

-- One event, for the connection 7 of the pool.
abbrev a_watch : Watch
a_watch = record { work_q = no_conns; room = a_room }

tick-TickOk_example :
    (out : Ticked) × (tick
        (a_conn 0 0)
        (λ fd. true)
        3
        a_queue
        (a_conn 0 0)
        a_watch
        (record { userdata = 7; is_error = false } ∷ [])
        15
      ≡ some out)
    × TickOk a_watch (a_conn 7 10 ∷ a_conn 8 20 ∷ []) [] 1 15 out
tick-TickOk_example =
    tick-TickOk (a_conn 0 0) (λ fd. true) 3 a_queue (a_conn 0 0) a_watch
      (record { userdata = 7; is_error = false } ∷ []) 15 (a_conn 7 10 ∷ a_conn 8 20 ∷ []) []
      a_queue-Represents refl (omega arith) (omega arith, refl) no_conns-Represents (omega arith)

abbrev letters : ℕ → Bytes
letters zero = []
letters (suc n) = b'a' ∷ letters n

length-letters : (n : ℕ) → length (c_str (letters n)) ≡ n
unfolding c_str
length-letters zero = refl
length-letters (suc n) = ap suc (length-letters n)

abbrev long_uri : RequestCtx
long_uri = record a_ctx { h1 = record a_ctx.h1 { uri = letters 2048 } }

log_access-overreads_example :
    (iov : Iovec) × ((sort_batch (log_access [] 0 [] long_uri ∷ [])).0 ≡ iov ∷ [])
    × (log_line_max < iov.iov_len)
log_access-overreads_example =
    log_access-overreads [] 0 [] long_uri
      (subst (λ n. 2048 ≤ n) (sym (length-letters 2048)) (omega arith))
