-- ===== src/Startup.antt =====
-- The start of the server: `main` of src/main.c as stages, each of which goes on or ends the process,
-- over the answers of the operating system.
pub mod Threads
pub mod Joined
pub mod Serving
pub mod Serves
pub mod Ready
use celeritas.Prelude.{
  ℕ, ◌+◌, Bool, true, false, Option, none, some, List, [], ◌∷◌, ◌++◌, Bytes, length, leb, ◌==◌,
  if◌then◌else◌,
}
use celeritas.Types.{path_max, Conn}
use celeritas.Text.{codes, find_last}
use celeritas.Config.{ConfigData}
use celeritas.Config.Load.{Outcome, init_config, load_config_defaults, zeroed}
use celeritas.HandlerStatic.{tail}
use celeritas.Server.Path.{
  Opt, ExitStatus, exit_success, exit_failure, Resolved, resolve_config_path,
}
use celeritas.Server.Tls.{TlsAnswers, SslContext, init_ssl_context}
use celeritas.Server.Daemon.{Fork, Process, Daemonized, daemonize}
use celeritas.Server.Privileges.{Creds, Accounts, DropResult, dropped, not_dropped, drop_privileges}
use celeritas.Server.LockFile.{RecordLocks, FileAnswers, already_running}
use celeritas.Socket.Listen.{Candidate, Listen, create_listener}
use celeritas.Util.Files.{FileSystem, Checked, fatal, returned, validate_path}

-- A stage ends the process with a status, or goes on with what it made.
pub data Stage (A : Type 0) : Type 0 where
  stop : ℕ → Stage A
  go : A → Stage A

unfoldable pub and_then : {A B : Type 0} → Stage A → (A → Stage B) → Stage B
and_then (stop status) next = stop status
and_then (go a) next = next a

-- `resolve_config_path` and `init_config`, on the files that can be read.
unfoldable pub loaded : ℕ → Option Outcome → Stage ConfigData
loaded ncpu none = stop 1
loaded ncpu (some (Outcome.loaded conf errors stray)) = go conf
loaded ncpu (some (Outcome.failed e)) = go (load_config_defaults ncpu zeroed)
loaded ncpu (some (Outcome.exits e)) = stop 1

unfoldable pub configure : (Bytes → Option Bytes) → ℕ → Resolved → Stage ConfigData
configure read_file ncpu (Resolved.exits exit_success) = stop 0
configure read_file ncpu (Resolved.exits exit_failure) = stop 1
configure read_file ncpu (Resolved.active path) = loaded ncpu (init_config ncpu (read_file path))

-- A call that gives something or nothing, and for nothing returns 1 from `main`.
unfoldable pub or_return : {A : Type 0} → Option A → Stage A
or_return none = stop 1
or_return (some a) = go a

-- The process after `daemonize`.
unfoldable pub detached : Daemonized → Stage Process
detached (Daemonized.ends status) = stop status
detached (Daemonized.daemon process) = go process

-- The name of the program in `argv[0]`.
unfoldable pub command_name : Bytes → Bytes
command_name argv0 = elim (find_last b'/' argv0) [ none ↦ argv0 | some r ↦ tail r ]

-- The path of the lock file.
unfoldable pub lock_path : ConfigData → Bytes → Stage Bytes
lock_path conf cmd =
    let path : Bytes = conf.lock_file_path ++ b'/' ∷ cmd ++ codes ".pid" in
    if leb path_max (length path) then stop 1 else go path

unfoldable pub after_drop : DropResult → Stage Creds
after_drop (dropped later) = go later
after_drop (not_dropped error later) = stop 1

-- `getuid() == 0` asks for the real user.
unfoldable pub drop_if_root : Accounts → Creds → ConfigData → Stage Creds
drop_if_root accounts creds conf =
    if creds.uid == 0
    then after_drop (drop_privileges accounts creds conf.server_user conf.server_group)
    else go creds

-- What the operating system answers, beside the interfaces.
pub record Answers : Type 0 where
  pub argv0 : Bytes
  pub opts : List Opt
  pub env_path : Option Bytes
  pub ncpu : ℕ
  pub read_file : Bytes → Option Bytes
  pub openssl : TlsAnswers
  pub open_log : Bytes → Option ℕ
  pub addresses : ℕ → Option (List Candidate)
  pub listen_ok : ℕ → Bool
  pub fork₁ : Fork
  pub fork₂ : Fork
  pub chdir_ok : Bool
  pub null_fd : Option ℕ
  pub process : Process
  pub lock_file : FileAnswers
  pub pid : ℕ
  pub creds : Creds

module _ (files : FileSystem) (locks : RecordLocks) (accounts : Accounts) where
  unfoldable pub checked : Checked files.Fs → Stage files.Fs
  checked (fatal e) = stop 1
  checked (returned fs) = go fs

  -- The lock of the lock file, which this process then holds.
  unfoldable pub locked : Answers → locks.Locks → ℕ → Stage locks.Locks
  locked answers l event_log_fd =
      let out = already_running locks answers.lock_file l answers.pid event_log_fd in
      if out.running then stop 1 else go out.locks

  -- What `main` has when it comes to the threads.
  pub record Started : Type 0 where
    pub conf : ConfigData
    pub ssl_ctx : SslContext
    pub fs₁ : files.Fs
    pub fs₂ : files.Fs
    pub event_log_fd : ℕ
    pub access_log_fd : ℕ
    pub http_sock : ℕ
    pub https_sock : ℕ
    pub process : Process
    pub lock_name : Bytes
    pub locks_held : locks.Locks
    pub creds : Creds

  -- From `daemonize` to the dropping of privileges.
  unfoldable pub settle_in :
      Answers
      → locks.Locks
      → ConfigData
      → SslContext
      → files.Fs
      → files.Fs
      → ℕ
      → ℕ
      → ℕ
      → ℕ
      → Stage Started
  settle_in answers l conf ssl fs₁ fs₂ event_fd access_fd http_sock https_sock =
      and_then
        (detached
          (daemonize answers.fork₁ answers.fork₂ answers.chdir_ok answers.null_fd answers.process))
        (λ process. and_then (lock_path conf (command_name answers.argv0)) (λ lockfile.
          and_then (locked answers l event_fd) (λ held.
            and_then (drop_if_root accounts answers.creds conf) (λ creds. go (record {
              conf = conf;
              ssl_ctx = ssl;
              fs₁ = fs₁;
              fs₂ = fs₂;
              event_log_fd = event_fd;
              access_log_fd = access_fd;
              http_sock = http_sock;
              https_sock = https_sock;
              process = process;
              lock_name = lockfile;
              locks_held = held;
              creds = creds;
            })))))

  -- From the opening of the logs to the sockets.
  unfoldable pub open_all :
      Answers → locks.Locks → ConfigData → SslContext → files.Fs → files.Fs → Stage Started
  open_all answers l conf ssl fs₁ fs₂ =
      and_then (or_return (answers.open_log conf.event_log)) (λ event_fd.
        and_then (or_return (answers.open_log conf.access_log)) (λ access_fd.
          and_then
            (or_return
              (create_listener (answers.addresses conf.http_port)
                (answers.listen_ok conf.http_port)).listen_fd)
            (λ http_sock.
              and_then
                (or_return
                  (create_listener (answers.addresses conf.https_port)
                    (answers.listen_ok conf.https_port)).listen_fd)
                (λ https_sock.
                  settle_in answers l conf ssl fs₁ fs₂ event_fd access_fd http_sock https_sock))))

  -- `main`, up to the signal mask.
  unfoldable pub main : Answers → files.Fs → locks.Locks → Stage Started
  main answers fs l =
      and_then
        (configure answers.read_file answers.ncpu
          (resolve_config_path answers.opts answers.env_path))
        (λ conf.
          and_then
            (or_return (init_ssl_context answers.openssl conf.tls_cert_path conf.tls_key_path))
            (λ ssl. and_then (checked (validate_path files fs conf.event_log)) (λ fs₁.
              and_then (checked (validate_path files fs₁ conf.access_log))
                (λ fs₂. open_all answers l conf ssl fs₁ fs₂))))
