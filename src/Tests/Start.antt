-- ===== src/Tests/Start.antt =====
-- The start and the end of the server, over concrete instances of its interfaces.
use celeritas.Prelude.{
  ℕ, ◌≡◌, ◌≢◌, refl, sym, ap, ◌∙◌, subst, Bool, true, false, Option, none, some, List, [], ◌∷◌,
  ◌++◌, ◌==◌, ◌||◌, Bytes, if◌then◌else◌, arith, Bool-cases, inl, inr, length, ◌<◌,
}
use mathlib.Core.Option.{some-injective}
use celeritas.Text.{codes, equal, equal_refl, c_str}
use celeritas.Types.{Conn, path_max}
use celeritas.Config.{ConfigData}
use celeritas.Config.Load.{zeroed, post_process, load_config_defaults}
use celeritas.Config.Invariant.{ConfigOk}
use celeritas.WorkQueue.{WorkQueue, queue_init, queue_push, queue_pop, take_head}
use celeritas.ConnPool.{ConnPool, pool_init}
use celeritas.Traffic.{Traffic, Runs, pop, accept}
use celeritas.Traffic.Balanced.{Balanced}
use celeritas.Startup.Serving.{at_start, worker_init-Balanced}
use celeritas.Server.Privileges.{Creds, Accounts, drop_privileges}
use celeritas.Server.Privileges.Dropped.{DropOk, drop_privileges-DropOk}
use celeritas.Server.LockFile.{
  RecordLocks, SetLock, granted, refused, eagain, FileAnswers, already_running,
}
use celeritas.Server.LockFile.Exclusive.{AllRefused, already_running-exclusive}
use celeritas.Server.Signals.{
  SigState, sighup, sigterm, unexpected, thr_sig_handler, thr_sig_handler-ConfigOk,
}
use celeritas.Server.Shutdown.{
  http_listener, https_listener, wait_room_thread, worker, ServerState, server_shutdown,
}
use celeritas.Server.Shutdown.Ordered.{begun, in_order, server_shutdown-in_order}
use celeritas.Util.Files.{
  FileSystem, StatResult, found, regular, directory, stat_enoent, MkdirResult, made, mkdir_eexist,
  mkdir_failed, validate_path, create_dir_recursive,
}
use celeritas.Util.Files.Valid.{Usable, validate_path-Usable}
use celeritas.Server.Daemon.{fork_child, terminal, dev_null}
use celeritas.Startup.{Answers, Started}
use celeritas.Startup.Serves.{Ready}
use celeritas.Startup.Threads.{
  QueueMemory, SpawnAnswers, running, worker_init, init_queue, spawn_all, spawn_workers, attempted,
  created_of,
}
use celeritas.Startup.Joined.{WorkersOk, worker_init-WorkersOk}
use celeritas.Tests.{a_conn}

-- Root may do everything, others nothing.
abbrev by_root : Creds → Creds → Option Creds
by_root c later = if c.euid == 0 then some later else none

if_root-eq : (b : Bool) (c d : Creds) → (if b then some c else none) ≡ some d → d ≡ c
if_root-eq true c d e = sym (some-injective _ _ e)
if_root-eq false c d e = absurd (ground arith)

abbrev in_groups : Creds → ℕ → Creds
in_groups c g = record c { groups = g ∷ [] }

abbrev in_group : Creds → ℕ → Creds
in_group c g = record c { gid = g; egid = g; sgid = g }

abbrev as_user : Creds → ℕ → Creds
as_user c u = record c { uid = u; euid = u; suid = u }

abbrev some_accounts : Accounts
some_accounts = record {
  getgrnam = λ name. some 33;
  getpwnam = λ name. some 44;
  groups_of = λ user g. g ∷ [];
  initgroups = λ c user g. by_root c (in_groups c g);
  setgid = λ c g. by_root c (in_group c g);
  setuid = λ c u. by_root c (as_user c u);
  initgroups_root = λ c user g later. if_root-eq (c.euid == 0) (in_groups c g) later;
  setgid_root = λ c g later root. if_root-eq (c.euid == 0) (in_group c g) later;
  setuid_root = λ c u later root. if_root-eq (c.euid == 0) (as_user c u) later;
  setuid_zero = λ c root. (as_user c 0, rw root refl);
}

abbrev root_creds : Creds
root_creds = record { uid = 0; euid = 0; suid = 0; gid = 0; egid = 0; sgid = 0; groups = [] }

drop_privileges-DropOk_example :
    DropOk some_accounts root_creds
      (codes "www")
      (codes "www")
      (drop_privileges some_accounts root_creds (codes "www") (codes "www"))
drop_privileges-DropOk_example =
    drop_privileges-DropOk some_accounts root_creds (codes "www") (codes "www") refl

-- One lock, which a process may have.
abbrev set_lock : Option ℕ → ℕ → SetLock (Option ℕ)
set_lock none pid = granted (some pid)
set_lock (some p) pid = if p == pid then granted (some p) else refused eagain

abbrev close_lock : Option ℕ → ℕ → Option ℕ
close_lock none pid = none
close_lock (some p) pid = if p == pid then none else some p

abbrev lock_of : Option ℕ → SetLock (Option ℕ) → Option ℕ
lock_of l (granted later) = later
lock_of l (refused error) = l

set_lock-holder :
    (l : Option ℕ) (pid : ℕ) (later : Option ℕ) → set_lock l pid ≡ granted later → later ≡ some pid
set_lock-holder none pid later e = sym (ap (lock_of none) e)
set_lock-holder (some p) pid later e = elim (Bool-cases (p == pid)) [
  | inl t ↦
      let f : granted (some p) ≡ granted later =
        subst (λ b. (if b then granted (some p) else refused eagain) ≡ granted later) t e in
      let same : p ≡ pid = ground (arith, t) in sym (ap (lock_of none) f) ∙ ap some same
  | inr t ↦
      let f : refused eagain ≡ granted later =
        subst (λ b. (if b then granted (some p) else refused eagain) ≡ granted later) t e in
      absurd (ground arith)
]

set_lock-free :
    (l : Option ℕ) (pid other : ℕ) (later : Option ℕ)
    → set_lock l pid ≡ granted later
    → l ≡ some other
    → other ≡ pid
set_lock-free none pid other later e h = absurd (ground arith)
set_lock-free (some p) pid other later e h = elim (Bool-cases (p == pid)) [
  | inl t ↦ let same : p ≡ pid = ground (arith, t) in sym (some-injective _ _ h) ∙ same
  | inr t ↦
      let f : refused eagain ≡ granted later =
        subst (λ b. (if b then granted (some p) else refused eagain) ≡ granted later) t e in
      absurd (ground arith)
]

close_lock-other :
    (l : Option ℕ) (pid other : ℕ) → l ≡ some other → other ≢ pid → close_lock l pid ≡ some other
close_lock-other none pid other h ne = absurd (ground arith)
close_lock-other (some p) pid other h ne =
    let e : p ≡ other = some-injective _ _ h in let t : p == pid ≡ false = ground arith in rw t h

abbrev one_lock : RecordLocks
one_lock = record {
  Locks = Option ℕ;
  holder = λ l. l;
  f_setlk = set_lock;
  close_file = close_lock;
  granted_holder = set_lock-holder;
  granted_free = set_lock-free;
  close_other = close_lock-other;
}

abbrev file_answers : FileAnswers
file_answers = record { opened = some 5; truncated = true; written = some 3 }

first_runs : (already_running one_lock file_answers none 100 2).running ≡ false
unfolding already_running celeritas.Server.LockFile.lockfile celeritas.Server.LockFile.write_pid
first_runs = refl

already_running-exclusive_example :
    AllRefused one_lock
      (already_running one_lock file_answers none 100 2).locks
      ((file_answers, 200, 2) ∷ (file_answers, 300, 2) ∷ [])
already_running-exclusive_example =
    already_running-exclusive one_lock file_answers none 100 2
      ((file_answers, 200, 2) ∷ (file_answers, 300, 2) ∷ []) first_runs
      ((λ e. absurd (ground arith)), ((λ e. absurd (ground arith)), tt))

abbrev no_slots : WorkQueue
no_slots = record { buf = []; capacity = 0; head = 0; tail = 0; count = 0; shutting_down = false }

abbrev a_server : ServerState
a_server = record {
  lock_file = codes "/var/run/celeritas.pid";
  n_workers = 2;
  http_fd = 3;
  https_fd = 4;
  work_queue = no_slots;
  wait_queue = no_slots;
}

server_shutdown-in_order_example : in_order a_server begun (server_shutdown a_server 0) ≡ true
server_shutdown-in_order_example = server_shutdown-in_order a_server 0

-- The paths of directories; the log files of the server are there as well.
abbrev elem : Bytes → List Bytes → Bool
elem p [] = false
elem p (q ∷ qs) = equal p q || elem p qs

abbrev stat_of : List Bytes → Bytes → StatResult
stat_of fs p =
    if elem p fs
    then found directory
    else (if elem p
          (codes "/var/log/celeritas/access_log" ∷ codes "/var/log/celeritas/event_log" ∷ [])
        then found regular
        else stat_enoent)

abbrev mkdir_of : List Bytes → Bytes → MkdirResult (List Bytes)
mkdir_of fs p = if elem p fs then mkdir_eexist else made (p ∷ fs)

abbrev fs_of : List Bytes → MkdirResult (List Bytes) → List Bytes
fs_of fs (made later) = later
fs_of fs mkdir_eexist = fs
fs_of fs mkdir_failed = fs

mkdir_of-made :
    (b : Bool) (fs later : List Bytes) (p : Bytes)
    → (if b then mkdir_eexist else made (p ∷ fs)) ≡ made later
    → (p ∷ fs) ≡ later
mkdir_of-made true fs later p e = absurd (ground arith)
mkdir_of-made false fs later p e = ap (fs_of fs) e

mkdir_of-eexist :
    (b : Bool) (fs : List Bytes) (p : Bytes)
    → (if b then mkdir_eexist else made (p ∷ fs)) ≡ mkdir_eexist
    → b ≡ true
mkdir_of-eexist true fs p e = refl
mkdir_of-eexist false fs p e = absurd (ground arith)

abbrev directories : FileSystem
directories = record {
  Fs = List Bytes;
  Present = λ fs p. elem p fs ≡ true;
  stat = stat_of;
  access_rw = λ fs p. true;
  access_wx = λ fs p. true;
  mkdir = mkdir_of;
  made_present = λ fs p later e.
      subst (λ x. elem p x ≡ true) (mkdir_of-made (elem p fs) fs later p e)
        (rw (equal_refl p) refl);
  made_keeps = λ fs p other later e h.
      subst (λ x. elem other x ≡ true) (mkdir_of-made (elem p fs) fs later p e) (ground (arith, h));
  eexist_present = λ fs p e. mkdir_of-eexist (elem p fs) fs p e;
}

validate_path-Usable_example :
    Usable directories
      (codes "/" ∷ [])
      (codes "/a/b")
      (validate_path directories (codes "/" ∷ []) (codes "/a/b"))
validate_path-Usable_example = validate_path-Usable directories (codes "/" ∷ []) (codes "/a/b")

zeroed-ConfigOk : ConfigOk zeroed
zeroed-ConfigOk = ground arith

thr_sig_handler-ConfigOk_example :
    (out : SigState) × (thr_sig_handler
        (sighup (some zeroed) 4 (some []) ∷ unexpected 10 ∷ sigterm ∷ [])
        zeroed
      ≡ some out)
    × (out.shutdown_status ≡ some 0)
    × ConfigOk out.conf_data
thr_sig_handler-ConfigOk_example =
    thr_sig_handler-ConfigOk (sighup (some zeroed) 4 (some []) ∷ unexpected 10 ∷ sigterm ∷ [])
      zeroed zeroed-ConfigOk

abbrev two_workers : ConfigData
two_workers = record zeroed { conn_queue_size = 2; worker_threads = 2 }

abbrev two_slots : List Conn
two_slots = a_conn 0 0 ∷ a_conn 0 0 ∷ []

short_path : length (codes "/run/c.pid") < path_max
unfolding codes
short_path = omega arith

abbrev all_created : SpawnAnswers
all_created = record { workers_memory = true; created = λ t. true }

worker_init-WorkersOk_example : WorkersOk two_workers (codes "/run/c.pid") (
    worker_init all_created two_workers
      (codes "/run/c.pid")
      3
      4
      (record { structure = some no_slots; slots = some two_slots })
      (record { structure = some no_slots; slots = some two_slots }))
worker_init-WorkersOk_example =
    worker_init-WorkersOk all_created two_workers (codes "/run/c.pid") 3 4 no_slots no_slots
      two_slots two_slots refl (λ t. refl) (omega arith) (omega arith) (omega arith) short_path

abbrev the_memory : QueueMemory
the_memory = record { structure = some no_slots; slots = some two_slots }

abbrev no_conns : WorkQueue
no_conns = record {
  buf = two_slots;
  capacity = 2;
  head = 0;
  tail = 0;
  count = 0;
  shutting_down = false;
}

abbrev no_pool : ConnPool
no_pool = record { items = two_slots; count = 0; capacity = 2 }

abbrev serving : ServerState
serving = record {
  lock_file = codes "/run/c.pid";
  n_workers = 2;
  http_fd = 3;
  https_fd = 4;
  work_queue = no_conns;
  wait_queue = no_conns;
}

serving-started :
    worker_init all_created two_workers (codes "/run/c.pid") 3 4 the_memory the_memory
    ≡ running serving (wait_room_thread ∷ worker 0 ∷ worker 1 ∷ http_listener ∷ https_listener ∷ [])
unfolding worker_init init_queue spawn_all spawn_workers attempted created_of queue_init codes
serving-started = refl

no_pool-made : pool_init (some two_slots) 2 ≡ some no_pool
unfolding pool_init
no_pool-made = refl

abbrev one_pushed : WorkQueue
one_pushed = record no_conns { buf = a_conn 5 0 ∷ a_conn 0 0 ∷ []; tail = 1; count = 1 }

-- One connection is accepted and popped by a worker.
abbrev at_work : Traffic
at_work = record (at_start serving no_pool) {
  work_q = record one_pushed { head = 1; count = 0 };
  busy = a_conn 5 0 ∷ [];
}

at_work-reached : Runs (a_conn 0 0) (at_start serving no_pool) (a_conn 5 0 ∷ []) at_work
unfolding at_start queue_push queue_pop take_head
at_work-reached =
    pop (a_conn 5 0) (record one_pushed { head = 1; count = 0 })
      (accept (a_conn 5 0) one_pushed Runs.begin refl) refl

worker_init-Balanced_example : Balanced (a_conn 5 0 ∷ []) at_work
worker_init-Balanced_example =
    worker_init-Balanced (a_conn 0 0) all_created two_workers (codes "/run/c.pid") 3 4 no_slots
      no_slots two_slots two_slots two_slots serving
      (wait_room_thread ∷ worker 0 ∷ worker 1 ∷ http_listener ∷ https_listener ∷ []) no_pool
      (a_conn 5 0 ∷ []) at_work (omega arith) (omega arith) (omega arith) refl serving-started
      no_pool-made at_work-reached

-- The answers to a server that root starts with no option.
abbrev at_boot : Answers
at_boot = record {
  argv0 = codes "/bin/celeritas";
  opts = [];
  env_path = none;
  ncpu = 4;
  read_file = λ path. some [];
  openssl = record {
    created = true;
    certificate_loaded = λ path. true;
    key_loaded = λ path. true;
    key_matches = λ cert key. true;
  };
  open_log = λ path. some 5;
  addresses = λ port. some (record { is_inet6 = false; socket = some port; bound = true } ∷ []);
  listen_ok = λ port. true;
  fork₁ = fork_child;
  fork₂ = fork_child;
  chdir_ok = true;
  null_fd = some 6;
  process = record {
    file_mask = 18;
    own_session = false;
    session_leader = false;
    working_dir = codes "/root";
    stdin = terminal;
    stdout = terminal;
    stderr = terminal;
    spare_fd = none;
  };
  lock_file = file_answers;
  pid = 100;
  creds = root_creds;
}

abbrev boot_conf : ConfigData
boot_conf = (post_process (load_config_defaults 4 zeroed)).0

abbrev booted : Started directories one_lock some_accounts
booted = record {
  conf = boot_conf;
  ssl_ctx = record {
    min_proto_version = 771;
    certificate = some boot_conf.tls_cert_path;
    private_key = some boot_conf.tls_key_path;
  };
  fs₁ = [];
  fs₂ = [];
  event_log_fd = 5;
  access_log_fd = 5;
  http_sock = 80;
  https_sock = 443;
  process = record {
    file_mask = 0;
    own_session = true;
    session_leader = false;
    working_dir = codes "/";
    stdin = dev_null;
    stdout = dev_null;
    stderr = dev_null;
    spare_fd = none;
  };
  lock_name = boot_conf.lock_file_path ++ b'/' ∷ codes "celeritas.pid";
  locks_held = some 100;
  creds = record {
    uid = 44;
    euid = 44;
    suid = 44;
    gid = 33;
    egid = 33;
    sgid = 33;
    groups = 33 ∷ [];
  };
}
