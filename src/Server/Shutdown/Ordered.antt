-- ===== src/Server/Shutdown/Ordered.antt =====
-- The order of the steps of the shutdown: what must have happened before each.
use celeritas.Prelude.{
  ℕ, zero, suc, ◌+◌, ◌≡◌, refl, Bool, true, false, ◌&&◌, ◌||◌, not, List, [], ◌∷◌, ◌++◌, ◌==◌,
  arith, ap, ◌∙◌, ==_refl,
}
use celeritas.Server.Shutdown.{
  http_listener, https_listener, wait_room_thread, worker, ServerState, ShutdownStep, log_info,
  set_shutting_down, close_socket, join, stop_wait_queue, stop_work_queue, release, unlink_file,
  stop_logger, exit_process, join_workers, clean_up_steps, server_shutdown,
}

-- What has been done so far: the threads that have ended, the workers among them counted from the
-- first; whether threads were told to end; the sockets that are closed; and whether the logger runs.
pub record Progress : Type 0 where
  pub told : Bool
  pub closed : List ℕ
  pub http_ended : Bool
  pub https_ended : Bool
  pub room_told : Bool
  pub room_ended : Bool
  pub workers_told : Bool
  pub workers_ended : ℕ
  pub log_open : Bool

abbrev pub begun : Progress
begun = record {
  told = false;
  closed = [];
  http_ended = false;
  https_ended = false;
  room_told = false;
  room_ended = false;
  workers_told = false;
  workers_ended = 0;
  log_open = true;
}

-- Whether all threads of a server with `n` workers have ended.
abbrev pub all_ended : ℕ → Progress → Bool
all_ended n p = p.http_ended && p.https_ended && p.room_ended && p.workers_ended == n

-- Whether a socket is closed.
abbrev pub is_closed : ℕ → List ℕ → Bool
is_closed fd [] = false
is_closed fd (c ∷ cs) = fd == c || is_closed fd cs

-- Whether a step may be taken: a thread is waited for only when it was told to end, which a listener is
-- when its own socket is closed and the flag is set; the wait queue is stopped only after the listeners
-- and the work queue only after the wait room; memory is released, and the logger stopped, only when
-- no other thread runs that uses it; the log is written only while the logger runs; and the process
-- ends when no thread is left.
abbrev pub allowed : ServerState → Progress → ShutdownStep → Bool
allowed server p log_info = p.log_open
allowed server p set_shutting_down = true
allowed server p (close_socket fd) = p.told
allowed server p (join http_listener) = p.told && is_closed server.http_fd p.closed
allowed server p (join https_listener) = p.told && is_closed server.https_fd p.closed
allowed server p (join wait_room_thread) = p.told && p.room_told
allowed server p (join (worker i)) = p.told && p.workers_told && p.workers_ended == i
allowed server p stop_wait_queue = p.told && p.http_ended && p.https_ended
allowed server p stop_work_queue = p.http_ended && p.https_ended && p.room_ended
allowed server p (release r) = all_ended server.n_workers p
allowed server p (unlink_file path) = all_ended server.n_workers p
allowed server p stop_logger = all_ended server.n_workers p
allowed server p (exit_process status) = all_ended server.n_workers p && not p.log_open

abbrev pub advance : Progress → ShutdownStep → Progress
advance p log_info = p
advance p set_shutting_down = record p { told = true }
advance p (close_socket fd) = record p { closed = fd ∷ p.closed }
advance p (join http_listener) = record p { http_ended = true }
advance p (join https_listener) = record p { https_ended = true }
advance p (join wait_room_thread) = record p { room_ended = true }
advance p (join (worker i)) = record p { workers_ended = p.workers_ended + 1 }
advance p stop_wait_queue = record p { room_told = true }
advance p stop_work_queue = record p { workers_told = true }
advance p (release r) = p
advance p (unlink_file path) = p
advance p stop_logger = record p { log_open = false }
advance p (exit_process status) = p

-- Whether all steps are allowed in their order.
abbrev pub in_order : ServerState → Progress → List ShutdownStep → Bool
in_order server p [] = true
in_order server p (step ∷ steps) = allowed server p step && in_order server (advance p step) steps

module _ (server : ServerState) where
  -- The progress in the loop over the workers.
  abbrev joining : ℕ → Progress
  joining i = record {
    told = true;
    closed = server.https_fd ∷ server.http_fd ∷ [];
    http_ended = true;
    https_ended = true;
    room_told = true;
    room_ended = true;
    workers_told = true;
    workers_ended = i;
    log_open = true;
  }

  -- The workers from `i` on end in turn.
  join_workers-in_order :
      (i left : ℕ) (rest : List ShutdownStep)
      → in_order server (joining i) (join_workers i left ++ rest)
        ≡ in_order server (joining (i + left)) rest
  unfolding join_workers
  join_workers-in_order i zero rest = ap (λ k. in_order server (joining k) rest) (omega arith)
  join_workers-in_order i (suc left) rest =
      let same : i == i ≡ true = ==_refl i in
      let next : i + 1 + left ≡ i + suc left = omega arith in
      rw same
        (join_workers-in_order (i + 1) left rest ∙ ap (λ k. in_order server (joining k) rest) next)

-- For every number of workers and any two sockets, `server_shutdown` takes its steps in an order in
-- which each thread is told to end before it is waited for, a listener by the flag and by the closing
-- of its own socket; the wait queue is stopped only when the listeners have ended and the work queue
-- only when the wait room has too; memory is freed, the lock file removed and the logger stopped only
-- when no listener, worker or wait-room thread runs; nothing is logged after the logger was stopped;
-- and the process ends only when the logger was stopped too.
pub server_shutdown-in_order :
    (server : ServerState) (status : ℕ)
    → in_order server begun (server_shutdown server status) ≡ true
unfolding server_shutdown clean_up_steps
server_shutdown-in_order server status =
    let n = server.n_workers in
    let same : n == n ≡ true = ==_refl n in
    let all_n : 0 + n ≡ n = omega arith in
    let http : server.http_fd == server.http_fd ≡ true = ==_refl server.http_fd in
    let https : server.https_fd == server.https_fd ≡ true = ==_refl server.https_fd in
    let http_told : is_closed server.http_fd (server.https_fd ∷ server.http_fd ∷ []) ≡ true =
      ground (arith, http) in
    rw (https, http_told)
      (join_workers-in_order server 0 n (clean_up_steps server status)
        ∙ ap (λ k. in_order server (joining server k) (clean_up_steps server status)) all_n
        ∙ rw same refl)
