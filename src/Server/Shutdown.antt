-- ===== src/Server/Shutdown.antt =====
-- `server_shutdown` of src/server.c as the steps that it takes, in order.
pub mod Ordered
use celeritas.Prelude.{ℕ, zero, suc, ◌+◌, List, [], ◌∷◌, ◌++◌, Bytes}
use celeritas.WorkQueue.{WorkQueue}

-- The threads of the server, without the logger's and that for signals, which runs the shutdown.
pub data Thread : Type 0 where
  http_listener https_listener wait_room_thread : Thread
  worker : ℕ → Thread

-- `server_t`. The threads are named by what runs in them.
pub record ServerState : Type 0 where
  pub lock_file : Bytes
  pub n_workers : ℕ
  pub http_fd : ℕ
  pub https_fd : ℕ
  pub work_queue : WorkQueue
  pub wait_queue : WorkQueue

pub data Resource : Type 0 where
  work_queue_memory wait_queue_memory workers_memory configuration : Resource

pub data ShutdownStep : Type 0 where
  log_info : ShutdownStep
  set_shutting_down : ShutdownStep
  close_socket : ℕ → ShutdownStep
  join : Thread → ShutdownStep
  stop_wait_queue stop_work_queue : ShutdownStep
  release : Resource → ShutdownStep
  unlink_file : Bytes → ShutdownStep
  stop_logger : ShutdownStep
  exit_process : ℕ → ShutdownStep

-- The loop that joins the `left` workers from worker `i` on.
unfoldable pub join_workers : ℕ → ℕ → List ShutdownStep
join_workers i zero = []
join_workers i (suc left) = join (worker i) ∷ join_workers (i + 1) left

-- From the loop on.
unfoldable pub clean_up_steps : ServerState → ℕ → List ShutdownStep
clean_up_steps server status =
    release work_queue_memory
    ∷ release wait_queue_memory
    ∷ release workers_memory
    ∷ unlink_file server.lock_file
    ∷ release configuration
    ∷ log_info
    ∷ stop_logger
    ∷ exit_process status
    ∷ []

-- `server_shutdown`
unfoldable pub server_shutdown : ServerState → ℕ → List ShutdownStep
server_shutdown server status =
    log_info
      ∷ set_shutting_down
      ∷ close_socket server.http_fd
      ∷ close_socket server.https_fd
      ∷ join http_listener
      ∷ join https_listener
      ∷ stop_wait_queue
      ∷ join wait_room_thread
      ∷ stop_work_queue
      ∷ join_workers 0 server.n_workers
    ++ clean_up_steps server status
