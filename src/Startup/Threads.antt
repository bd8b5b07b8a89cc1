-- ===== src/Startup/Threads.antt =====
-- `worker_init` of src/threadpool.c: the queues and the threads.
use celeritas.Prelude.{
  ℕ, zero, suc, ◌+◌, ◌-◌, Option, none, some, List, [], ◌∷◌, ◌++◌, Bytes, take, Bool, not, ◌&&◌,
  ltb, if◌then◌else◌,
}
use celeritas.Types.{path_max, Conn}
use celeritas.Config.{ConfigData}
use celeritas.WorkQueue.{WorkQueue, queue_init}
use celeritas.Server.Shutdown.{
  Thread, http_listener, https_listener, wait_room_thread, worker, ServerState,
}

-- What `malloc` gives for one of the queues: the structure, with what its memory held, or nothing;
-- and its slots.
pub record QueueMemory : Type 0 where
  pub structure : Option WorkQueue
  pub slots : Option (List Conn)

-- What the system answers to `malloc` of `server.workers` and to `pthread_create` for each thread.
pub record SpawnAnswers : Type 0 where
  pub workers_memory : Bool
  pub created : Thread → Bool

-- `worker_init` calls `server_shutdown` before the queues are in `server`, which then uses a null
-- pointer; or it writes the workers through the null pointer of a failed `malloc`; or it comes to its
-- end, and those threads run whose creation succeeded, in the order of their creation.
pub data WorkersStarted : Type 0 where
  null_queue : WorkersStarted
  null_workers : WorkersStarted
  running : ServerState → List Thread → WorkersStarted

-- A failed `queue_init` is logged only; the structure keeps what its memory held, but for `buf`, which
-- is a null pointer.
unfoldable pub init_queue : QueueMemory → ℕ → Option WorkQueue
init_queue memory cap = elim memory.structure [
  | none ↦ none
  | some garbage ↦ elim (queue_init memory.slots cap) [
    | none ↦ some (record garbage { buf = [] })
    | some q ↦ some q
  ]
]

-- The loop that spawns the `left` workers from worker `i` on.
unfoldable pub spawn_workers : ℕ → ℕ → List Thread
spawn_workers i zero = []
spawn_workers i (suc left) = worker i ∷ spawn_workers (i + 1) left

-- Those whose creation succeeds.
unfoldable pub created_of : (Thread → Bool) → List Thread → List Thread
created_of created [] = []
created_of created (t ∷ ts) =
    let rest = created_of created ts in if created t then t ∷ rest else rest

-- All the threads that are to run.
unfoldable pub attempted : ServerState → List Thread
attempted server =
    wait_room_thread ∷ spawn_workers 0 server.n_workers ++ http_listener ∷ https_listener ∷ []

-- From the args of the wait room on. No result of `pthread_create` is looked at. Without a worker, the
-- memory is not written.
unfoldable pub spawn_all : SpawnAnswers → ServerState → WorkersStarted
spawn_all spawns server =
    if not spawns.workers_memory && ltb 0 server.n_workers
    then null_workers
    else running server (created_of spawns.created (attempted server))

-- `worker_init`
unfoldable pub worker_init :
    SpawnAnswers → ConfigData → Bytes → ℕ → ℕ → QueueMemory → QueueMemory → WorkersStarted
worker_init spawns conf lockfile http_sock https_sock work_memory wait_memory =
    elim (init_queue work_memory conf.conn_queue_size) [
      | none ↦ null_queue
      | some work_queue ↦ elim (init_queue wait_memory conf.conn_queue_size) [
        | none ↦ null_queue
        | some wait_queue ↦ spawn_all spawns (record {
          lock_file = take (path_max - 1) lockfile;
          n_workers = conf.worker_threads;
          http_fd = http_sock;
          https_fd = https_sock;
          work_queue = work_queue;
          wait_queue = wait_queue;
        })
      ]
    ]
