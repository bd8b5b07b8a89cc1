-- ===== src/Startup/Joined.antt =====
-- What `worker_init` starts and `server_shutdown` waits for.
use celeritas.Prelude.{
  ℕ, zero, suc, ◌+◌, ◌-◌, ◌≡◌, ◌<◌, ◌≤◌, refl, sym, ap, subst, some, List, [], ◌∷◌, ◌++◌, Bytes,
  take, take_all, length, arith, Bool, true, not, ◌&&◌, ltb, Bool-cases, inl, inr,
}
use celeritas.Types.{path_max, Conn}
use celeritas.Config.{ConfigData}
use celeritas.WorkQueue.{WorkQueue}
use celeritas.WorkQueue.Fifo.{Represents, queue_init-Represents}
use celeritas.Server.Shutdown.{
  Thread, http_listener, https_listener, wait_room_thread, worker, ServerState, ShutdownStep,
  log_info, set_shutting_down, close_socket, join, stop_wait_queue, stop_work_queue, release,
  unlink_file, stop_logger, exit_process, join_workers, clean_up_steps, server_shutdown,
}
use celeritas.Startup.Threads.{
  SpawnAnswers, WorkersStarted, null_queue, null_workers, created_of, running, init_queue,
  spawn_workers, attempted, spawn_all, worker_init,
}
use mathlib.Core.List.{Perm, perm_append_comm}

-- The threads that are waited for.
abbrev pub joined : List ShutdownStep → List Thread
joined [] = []
joined (join t ∷ steps) = t ∷ joined steps
joined (log_info ∷ steps) = joined steps
joined (set_shutting_down ∷ steps) = joined steps
joined (close_socket fd ∷ steps) = joined steps
joined (stop_wait_queue ∷ steps) = joined steps
joined (stop_work_queue ∷ steps) = joined steps
joined (release r ∷ steps) = joined steps
joined (unlink_file path ∷ steps) = joined steps
joined (stop_logger ∷ steps) = joined steps
joined (exit_process status ∷ steps) = joined steps

join_workers-joined :
    (i left : ℕ) (rest : List ShutdownStep)
    → joined rest ≡ []
    → joined (join_workers i left ++ rest) ≡ spawn_workers i left
unfolding join_workers spawn_workers
join_workers-joined i zero rest e = e
join_workers-joined i (suc left) rest e =
    ap (λ ts. worker i ∷ ts) (join_workers-joined (i + 1) left rest e)

-- The threads of a state are those that its shutdown joins.
spawn_all-joined :
    (server : ServerState) (status : ℕ)
    → Perm (attempted server) (joined (server_shutdown server status))
unfolding server_shutdown clean_up_steps attempted
spawn_all-joined server status =
    subst
      (λ ts.
        Perm
          (wait_room_thread ∷ spawn_workers 0 server.n_workers
            ++ http_listener ∷ https_listener ∷ [])
          (http_listener ∷ https_listener ∷ wait_room_thread ∷ ts))
      (sym (join_workers-joined 0 server.n_workers (clean_up_steps server status) refl))
      (perm_append_comm (wait_room_thread ∷ spawn_workers 0 server.n_workers)
        (http_listener ∷ https_listener ∷ []))

-- What `worker_init` promises where it has its memory.
pub record WorkersOk (conf : ConfigData) (lockfile : Bytes) (out : WorkersStarted) : Type 0 where
  pub server : ServerState
  pub threads : List Thread
  pub starts : out ≡ running server threads
  pub workers_configured : server.n_workers ≡ conf.worker_threads
  pub lock_file_kept : server.lock_file ≡ lockfile
  pub work_empty : Represents server.work_queue []
  pub wait_empty : Represents server.wait_queue []
  pub workers_run :
      threads
      ≡ wait_room_thread ∷ spawn_workers 0 conf.worker_threads
        ++ http_listener ∷ https_listener ∷ []
  pub all_joined : (status : ℕ) → Perm threads (joined (server_shutdown server status))

init_queue-Represents :
    (garbage : WorkQueue) (slots : List Conn) (cap : ℕ)
    → 0 < cap
    → cap ≤ length slots
    → (q : WorkQueue) × (init_queue (record { structure = some garbage; slots = some slots }) cap
        ≡ some q)
      × Represents q []
unfolding init_queue
init_queue-Represents garbage slots cap pos fits =
    let (q, e, r) = queue_init-Represents slots cap pos fits in (q, rw (e, init_queue) refl, r)

server_of : ServerState → WorkersStarted → ServerState
server_of default (running server threads) = server
server_of default null_queue = default
server_of default null_workers = default

running-server : (a b : ServerState) (ts us : List Thread) → running a ts ≡ running b us → a ≡ b
unfolding server_of
running-server a b ts us e = ap (server_of a) e

spawn_all-server :
    (spawns : SpawnAnswers) (a b : ServerState) (us : List Thread)
    → spawn_all spawns a ≡ running b us
    → a ≡ b
unfolding spawn_all
spawn_all-server spawns a b us =
    elim (Bool-cases (not spawns.workers_memory && ltb 0 a.n_workers)) [
      | inl t ↦ rw (t, spawn_all) (λ e. absurd (ground (arith, e)))
      | inr t ↦
          rw (t, spawn_all) (λ e. running-server a b (created_of spawns.created (attempted a)) us e)
    ]

-- The two queues are empty when `worker_init` comes to its end, whichever threads it has.
pub worker_init-empty :
    (spawns : SpawnAnswers) (conf : ConfigData) (lockfile : Bytes) (http_sock https_sock : ℕ)
    (garbage₁ garbage₂ : WorkQueue) (slots₁ slots₂ : List Conn) (server : ServerState)
    (threads : List Thread)
    → 0 < conf.conn_queue_size
    → conf.conn_queue_size ≤ length slots₁
    → conf.conn_queue_size ≤ length slots₂
    → worker_init spawns conf lockfile http_sock https_sock
        (record { structure = some garbage₁; slots = some slots₁ })
        (record { structure = some garbage₂; slots = some slots₂ })
      ≡ running server threads
    → Represents server.work_queue [] × Represents server.wait_queue []
unfolding worker_init
worker_init-empty spawns conf lockfile http_sock https_sock garbage₁ garbage₂ slots₁ slots₂ server
      threads pos fits₁ fits₂ =
    let (q₁, e₁, r₁) = init_queue-Represents garbage₁ slots₁ conf.conn_queue_size pos fits₁ in
    let (q₂, e₂, r₂) = init_queue-Represents garbage₂ slots₂ conf.conn_queue_size pos fits₂ in
    let made : ServerState = record {
      lock_file = take (path_max - 1) lockfile;
      n_workers = conf.worker_threads;
      http_fd = http_sock;
      https_fd = https_sock;
      work_queue = q₁;
      wait_queue = q₂;
    } in
    rw (e₁, worker_init)
      (rw e₂ (λ started.
        let same : made ≡ server = spawn_all-server spawns made server threads started in
        (
          subst (λ s. Represents s.work_queue []) same r₁,
          subst (λ s. Represents s.wait_queue []) same r₂,
        )))

-- Without a failure of `pthread_create`, all threads run.
created_of-all :
    (created : Thread → Bool) (ts : List Thread)
    → ((t : Thread) → created t ≡ true)
    → created_of created ts ≡ ts
unfolding created_of
created_of-all created [] ok = refl
created_of-all created (t ∷ ts) ok = rw (ok t) (ap (λ us. t ∷ us) (created_of-all created ts ok))

-- With memory for two queues of the configured size, which is not 0, and for the workers, a lock file
-- whose path fits, and no failure of `pthread_create`, `worker_init` starts the configured number of
-- workers, the wait room and two listeners on two empty queues, and the shutdown later waits for
-- exactly these threads, each once.
pub worker_init-WorkersOk :
    (spawns : SpawnAnswers) (conf : ConfigData) (lockfile : Bytes) (http_sock https_sock : ℕ)
    (garbage₁ garbage₂ : WorkQueue) (slots₁ slots₂ : List Conn)
    → spawns.workers_memory ≡ true
    → ((t : Thread) → spawns.created t ≡ true)
    → 0 < conf.conn_queue_size
    → conf.conn_queue_size ≤ length slots₁
    → conf.conn_queue_size ≤ length slots₂
    → length lockfile < path_max
    → WorkersOk conf lockfile (
        worker_init spawns conf lockfile http_sock https_sock
          (record { structure = some garbage₁; slots = some slots₁ })
          (record { structure = some garbage₂; slots = some slots₂ }))
unfolding worker_init spawn_all attempted
worker_init-WorkersOk spawns conf lockfile http_sock https_sock garbage₁ garbage₂ slots₁ slots₂ room
      ok pos fits₁ fits₂ short =
    let (q₁, e₁, r₁) = init_queue-Represents garbage₁ slots₁ conf.conn_queue_size pos fits₁ in
    let (q₂, e₂, r₂) = init_queue-Represents garbage₂ slots₂ conf.conn_queue_size pos fits₂ in
    let server : ServerState = record {
      lock_file = take (path_max - 1) lockfile;
      n_workers = conf.worker_threads;
      http_fd = http_sock;
      https_fd = https_sock;
      work_queue = q₁;
      wait_queue = q₂;
    } in
    record {
      server = server;
      threads = attempted server;
      starts =
          rw (e₁, worker_init)
            (rw (e₂, room)
              (ap (running server) (created_of-all spawns.created (attempted server) ok)));
      workers_configured = refl;
      lock_file_kept = take_all (path_max - 1) lockfile (omega arith);
      work_empty = r₁;
      wait_empty = r₂;
      all_joined = λ status. spawn_all-joined server status;
      workers_run = refl;
    }
