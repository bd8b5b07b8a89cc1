-- ===== src/Traffic.antt =====
-- The way of the connections through the threads of src/threadpool.c: every interleaving of the
-- listeners, the workers and the wait room.
pub mod Balanced
use celeritas.Prelude.{ℕ, ◌≡◌, Bool, true, Option, none, some, List, [], ◌∷◌, ◌++◌, Bytes}
use celeritas.Config.{ConfigData}
use celeritas.ConnPool.{ConnPool}
use celeritas.HandlerStatic.{Release}
use celeritas.IoWatcher.{IoEvent}
use celeritas.Types.{Conn, RequestCtx}
use celeritas.WaitRoom.{Room, place}
use celeritas.WaitRoom.Tick.{Watch, handle_event, sweep}
use celeritas.WorkQueue.{WorkQueue, queue_push, queue_pop, queue_trypop, popped, at_shutdown}
use celeritas.Worker.{Answers, parked, closed, stopped, worker_round}

-- Where the connections are: in the two queues, with a worker each, with the wait room, which has
-- closed some, or closed by a worker. `again` are those that the wait room has taken a second time.
pub record Traffic : Type 0 where
  pub work_q : WorkQueue
  pub wait_q : WorkQueue
  pub busy : List Conn
  pub room : Room
  pub done : List Conn
  pub again : List Conn

abbrev pub watch_of : Traffic → Watch
watch_of t = record { work_q = t.work_q; room = t.room }

-- `t` is reached from `start` by steps of any threads in any order, in which `ins` were accepted. A
-- call that waits is no step; the wait room's come in any order, which includes that of its loop.
-- A worker's round takes effect at its end.
pub data Runs (spare : Conn) (start : Traffic) : List Conn → Traffic → Type 0 where
  begin : Runs spare start [] start
  accept :
      {ins : List Conn} {t : Traffic} (c : Conn) (q : WorkQueue)
      → Runs spare start ins t
      → queue_push t.work_q c ≡ some q
      → Runs spare start (ins ++ c ∷ []) (record t { work_q = q })
  pop :
      {ins : List Conn} {t : Traffic} (c : Conn) (q : WorkQueue)
      → Runs spare start ins t
      → queue_pop t.work_q ≡ popped (some c) q
      → Runs spare start ins (record t { work_q = q; busy = c ∷ t.busy })
  park :
      {ins : List Conn} {t : Traffic} (before after : List Conn) (c c' : Conn) (q : WorkQueue)
      (conf : ConfigData) (a : Answers) (ctx : RequestCtx) (sent : Bytes)
      → Runs spare start ins t
      → t.busy ≡ before ++ c ∷ after
      → worker_round conf a c ≡ some (parked c' ctx sent)
      → queue_push t.wait_q c' ≡ some q
      → Runs spare start ins (record t { wait_q = q; busy = before ++ after })
  close :
      {ins : List Conn} {t : Traffic} (before after : List Conn) (c : Conn) (conf : ConfigData)
      (a : Answers) (ctx : RequestCtx) (release : Release) (sent : Bytes)
      → Runs spare start ins t
      → t.busy ≡ before ++ c ∷ after
      → worker_round conf a c ≡ some (closed ctx release sent)
      → Runs spare start ins (record t { busy = before ++ after; done = ctx.conn ∷ t.done })
  stop :
      {ins : List Conn} {t : Traffic} (before after : List Conn) (c : Conn) (conf : ConfigData)
      (a : Answers) (ctx : RequestCtx) (sent : Bytes)
      → Runs spare start ins t
      → t.busy ≡ before ++ c ∷ after
      → worker_round conf a c ≡ some (stopped ctx sent)
      → Runs spare start ins (record t { busy = before ++ after; done = ctx.conn ∷ t.done })
  move_in :
      {ins : List Conn} {t : Traffic} (registers : ℕ → Bool) (c : Conn) (q : WorkQueue)
      → Runs spare start ins t
      → queue_trypop t.wait_q ≡ popped (some c) q
      → Runs spare start ins (record t { wait_q = q; room = place spare registers t.room c })
  -- At shutdown `queue_trypop` leaves the local variable of the wait room as it is, and the loop takes
  -- what it holds once more: the connection of the round before, or what its memory held.
  take_again :
      {ins : List Conn} {t : Traffic} (registers : ℕ → Bool) (c : Conn)
      → Runs spare start ins t
      → queue_trypop t.wait_q ≡ at_shutdown
      → Runs spare start ins
          (record t { room = place spare registers t.room c; again = c ∷ t.again })
  wake :
      {ins : List Conn} {t : Traffic} (event : IoEvent) (w : Watch)
      → Runs spare start ins t
      → handle_event spare (watch_of t) event ≡ some w
      → Runs spare start ins (record t { work_q = w.work_q; room = w.room })
  expire :
      {ins : List Conn} {t : Traffic} (now : ℕ) (w : Watch)
      → Runs spare start ins t
      → sweep spare (watch_of t) now ≡ some w
      → Runs spare start ins (record t { room = w.room })
  shut_down_work :
      {ins : List Conn} {t : Traffic}
      → Runs spare start ins t
      → Runs spare start ins (record t { work_q = record t.work_q { shutting_down = true } })
  shut_down_wait :
      {ins : List Conn} {t : Traffic}
      → Runs spare start ins t
      → Runs spare start ins (record t { wait_q = record t.wait_q { shutting_down = true } })
