-- ===== src/Startup/Serving.antt =====
-- The threads from their start: the state that `worker_init` and the first lines of
-- `wait_room_thread` leave, and every interleaving from there.
use celeritas.Prelude.{ℕ, ◌≡◌, ◌≤◌, ◌<◌, refl, sym, ◌∙◌, subst, some, List, [], Bytes, length}
use mathlib.Core.Option.{some-injective}
use celeritas.Config.{ConfigData}
use celeritas.ConnPool.{ConnPool, pool_init}
use celeritas.ConnPool.Bag.{PoolInv, contents, pool_init-contents}
use celeritas.Server.Shutdown.{Thread, ServerState}
use celeritas.Startup.Joined.{worker_init-empty}
use celeritas.Startup.Threads.{SpawnAnswers, running, worker_init}
use celeritas.Traffic.{Traffic, Runs}
use celeritas.Traffic.Balanced.{Balanced, Runs-Balanced}
use celeritas.Types.{Conn}
use celeritas.WorkQueue.{WorkQueue}

-- No connection has been accepted. The pool is that of the wait room thread.
unfoldable pub at_start : ServerState → ConnPool → Traffic
at_start server pool = record {
  work_q = server.work_queue;
  wait_q = server.wait_queue;
  busy = [];
  room = record { pool = pool; closed = [] };
  done = [];
  again = [];
}

-- A server whose queues and pool had memory of the configured size, which is not 0, starts on empty
-- queues and an empty pool, whichever of its threads could be created. After any interleaving of the
-- steps of the listeners, the workers and the wait room, the queues hold lists and the pool is well
-- formed, and each descriptor stands in the work queue, with a worker, in the wait queue, in the pool,
-- and among the connections that the wait room or a worker has closed exactly as often as it was
-- accepted and, at shutdown only, taken again by the wait room from its local variable. So none is
-- lost, and until the wait queue is shut down none is doubled.
pub worker_init-Balanced :
    (spare : Conn) (spawns : SpawnAnswers) (conf : ConfigData) (lockfile : Bytes)
    (http_sock https_sock : ℕ) (garbage₁ garbage₂ : WorkQueue) (slots₁ slots₂ memory : List Conn)
    (server : ServerState) (threads : List Thread) (pool : ConnPool) (ins : List Conn) (t : Traffic)
    → 0 < conf.conn_queue_size
    → conf.conn_queue_size ≤ length slots₁
    → conf.conn_queue_size ≤ length slots₂
    → length memory ≡ conf.conn_queue_size
    → worker_init spawns conf lockfile http_sock https_sock
        (record { structure = some garbage₁; slots = some slots₁ })
        (record { structure = some garbage₂; slots = some slots₂ })
      ≡ running server threads
    → pool_init (some memory) conf.conn_queue_size ≡ some pool
    → Runs spare (at_start server pool) ins t
    → Balanced ins t
unfolding at_start
worker_init-Balanced spare spawns conf lockfile http_sock https_sock garbage₁ garbage₂ slots₁ slots₂
      memory server threads pool ins t pos fits₁ fits₂ size started pooled r =
    let (work, wait) =
      worker_init-empty spawns conf lockfile http_sock https_sock garbage₁ garbage₂ slots₁ slots₂
        server threads pos fits₁ fits₂ started in
    let (pool', e, inv, empty) = pool_init-contents memory conf.conn_queue_size size in
    let at : pool' ≡ pool = some-injective _ _ (sym e ∙ pooled) in
    Runs-Balanced spare (at_start server pool) ins t work wait (subst PoolInv at inv)
      (subst (λ p. contents p ≡ []) at empty) refl refl refl refl r
