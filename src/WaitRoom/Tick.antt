-- ===== src/WaitRoom/Tick.antt =====
-- One round of `wait_room_thread` in src/threadpool.c after the drain: the cap of the waiting time, the
-- events that the watcher reports, and the sweep.
use celeritas.Prelude.{ℕ, Bool, Option, none, some, List, [], ◌∷◌, ◌++◌, if◌then◌else◌, ltb}
use celeritas.Types.{Conn}
use celeritas.IoWatcher.{IoEvent}
use celeritas.WorkQueue.{WorkQueue, queue_push}
use celeritas.ConnPool.{
  NearestMs, minus_one, ms, overflow, ConnPool, pool_remove_by_fd, pool_sweep_expired,
  pool_nearest_timeout_ms,
}
use celeritas.WaitRoom.{Room, drain}

-- `MAX_TICK_MS`
abbrev pub max_tick_ms : ℕ
max_tick_ms = 200

-- The time that the thread waits for events; `none` for an undefined one.
unfoldable pub capped : NearestMs → Option ℕ
capped minus_one = some max_tick_ms
capped (ms timeout_ms) = some (if ltb max_tick_ms timeout_ms then max_tick_ms else timeout_ms)
capped overflow = none

unfoldable pub tick_timeout : ConnPool → ℕ → Option ℕ
tick_timeout pool now = capped (pool_nearest_timeout_ms pool now)

-- The work queue and what the thread owns.
pub record Watch : Type 0 where
  pub work_q : WorkQueue
  pub room : Room

-- The branches for a connection that was taken from the pool. `none` waits in `queue_push`, for a
-- full work queue; the connection is then a local variable of the thread.
unfoldable pub hand_back : Watch → Bool → Conn → ConnPool → Option Watch
hand_back w is_error active_conn later =
    if is_error
    then some
        (record w { room = record { pool = later; closed = w.room.closed ++ active_conn ∷ [] } })
    else elim (queue_push w.work_q active_conn) [
      | none ↦ none
      | some q ↦
          some (record { work_q = q; room = record { pool = later; closed = w.room.closed } })
    ]

-- The state after a round.
pub record Ticked : Type 0 where
  pub wait_q : WorkQueue
  pub watch : Watch

module _ (spare : Conn) where
  -- The body of the loop over the events.
  unfoldable pub handle_event : Watch → IoEvent → Option Watch
  handle_event w event = elim (pool_remove_by_fd spare w.room.pool event.userdata) [
    | none ↦ some w
    | some r ↦ hand_back w event.is_error r.0 r.1
  ]

  -- The loop over the events.
  unfoldable pub handle_events : Watch → List IoEvent → Option Watch
  handle_events w [] = some w
  handle_events w (event ∷ events) = elim (handle_event w event) [
    | none ↦ none
    | some later ↦ handle_events later events
  ]

  -- `pool_sweep_expired` closes what it takes from the pool.
  unfoldable pub sweep : Watch → ℕ → Option Watch
  sweep w now = elim (pool_sweep_expired spare w.room.pool now) [
    | none ↦ none
    | some r ↦ some (record w { room = record { pool = r.0; closed = w.room.closed ++ r.1 } })
  ]

  -- One round, with the answers of `io_watcher_add`, the events that the watcher reports, and the
  -- clock at the sweep. A failed wait reports no events.
  unfoldable pub tick : (ℕ → Bool) → ℕ → WorkQueue → Conn → Watch → List IoEvent → ℕ → Option Ticked
  tick registers fuel wait_q conn w events now =
      elim (drain spare registers fuel wait_q w.room conn) [
        | none ↦ none
        | some d ↦ elim (handle_events (record w { room = d.room }) events) [
          | none ↦ none
          | some w' ↦ elim (sweep w' now) [
            | none ↦ none
            | some w'' ↦ some (record { wait_q = d.queue; watch = w'' })
          ]
        ]
      ]
