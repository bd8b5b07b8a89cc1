-- ===== src/WaitRoom.antt =====
-- The wait room in src/threadpool.c: how `wait_room_thread` drains the wait queue into its pool. The
-- answers of `io_watcher_add` are a parameter.
pub mod Drain
pub mod Kept
pub mod Handled
pub mod Tally
pub mod Tick
pub mod Timeout
use celeritas.Prelude.{ℕ, zero, suc, Bool, Option, none, some, List, [], ◌∷◌, ◌++◌, if◌then◌else◌}
use celeritas.Types.{Conn}
use celeritas.WorkQueue.{WorkQueue, Popped, popped, waits, at_shutdown, is_empty, queue_trypop}
use celeritas.ConnPool.{ConnPool, pool_add, pool_remove_by_fd}

-- The two things that the thread owns here: its pool, and the connections that it has closed, in
-- order.
pub record Room : Type 0 where
  pub pool : ConnPool
  pub closed : List Conn

-- The state of the loop when it ends.
pub record Drained : Type 0 where
  pub queue : WorkQueue
  pub room : Room

module _ (spare : Conn) (registers : ℕ → Bool) where
  -- A connection that the kernel does not take is removed from the pool again.
  unfoldable pub unplace : ConnPool → Conn → ConnPool
  unplace pool conn = elim (pool_remove_by_fd spare pool conn.fd) [ none ↦ pool | some r ↦ r.1 ]

  -- The body of the loop.
  unfoldable pub place : Room → Conn → Room
  place room conn = elim (pool_add room.pool conn) [
    | none ↦ record room { closed = room.closed ++ conn ∷ [] }
    | some pool ↦
        if registers conn.fd
        then record room { pool = pool }
        else record room { pool = unplace pool conn; closed = room.closed ++ conn ∷ [] }
  ]

  -- The loop, on fuel, with the local `conn` that `queue_trypop` writes to; `none` means that the fuel
  -- ran out, or a slot out of range. At shutdown `queue_trypop` returns -1, which is not 1, and leaves
  -- `conn` as it is.
  unfoldable pub drain : ℕ → WorkQueue → Room → Conn → Option Drained
  drain zero q room conn = none
  drain (suc fuel) q room conn =
      let again = drain fuel q (place room conn) conn in
      let next : WorkQueue → Conn → Option Drained = λ later c. drain fuel later (place room c) c in
      elim (queue_trypop q) [
        | is_empty ↦ some (record { queue = q; room = room })
        | at_shutdown ↦ again
        | waits ↦ none
        | popped o later ↦ elim o [ none ↦ none | some c ↦ next later c ]
      ]
