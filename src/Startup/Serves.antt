-- ===== src/Startup/Serves.antt =====
-- What holds when `main` comes to the threads, stage by stage.
use celeritas.Prelude.{
  ℕ, ◌≡◌, ◌≢◌, ◌<◌, inl, inr, refl, sym, ap, subst, true, false, Option, none, some, Bytes, length,
  ◌∷◌, ◌++◌, leb, ◌==◌, arith, Bool-cases,
}
use celeritas.Types.{path_max}
use celeritas.Text.{codes}
use celeritas.Config.{ConfigData}
use celeritas.Config.Load.{Outcome, init_config}
use celeritas.Config.Invariant.{ConfigOk}
use celeritas.Config.Loaded.{Parsed, init_config-Parsed}
use celeritas.Server.Path.{Resolved, exit_success, exit_failure}
use celeritas.Server.Tls.{tls1_2_version}
use celeritas.Server.Daemon.{Process, Daemonized, dev_null}
use celeritas.Server.Privileges.{Creds, Accounts, DropResult, dropped, not_dropped, drop_privileges}
use celeritas.Server.Privileges.Dropped.{DropOk, Unprivileged, drop_privileges-DropOk}
use celeritas.Server.LockFile.{RecordLocks, already_running}
use celeritas.Server.LockFile.Exclusive.{already_running-holder}
use celeritas.Socket.Listen.{Listening}
use celeritas.Util.Files.{FileSystem, Checked, fatal, returned}
use celeritas.Util.Files.Valid.{Usable}
use celeritas.Startup.{
  Stage, stop, go, and_then, loaded, configure, or_return, detached, lock_path, after_drop,
  drop_if_root, Answers, checked, locked, Started,
}

pub go-injective : {A : Type 0} (a b : A) → go a ≡ go b → a ≡ b
go-injective {A} a b e = ap (λ r. of_go r) e
  where
    of_go : Stage A → A
    of_go (stop status) = a
    of_go (go x) = x

stop≢go : {A : Type 0} {B : Type 0} (n : ℕ) (a : A) → stop n ≡ go a → B
stop≢go n a e = absurd (ground arith)

pub and_then-go :
    {A B : Type 0} (r : Stage A) (next : A → Stage B) (b : B)
    → and_then r next ≡ go b
    → (a : A) × (r ≡ go a) × (next a ≡ go b)
unfolding and_then
and_then-go (stop n) next b e = stop≢go n b e
and_then-go (go a) next b e = (a, refl, e)

pub or_return-go : {A : Type 0} (o : Option A) (a : A) → or_return o ≡ go a → o ≡ some a
unfolding or_return
or_return-go none a e = stop≢go 1 a e
or_return-go (some b) a e = ap some (go-injective b a e)

loaded-ConfigOk :
    (ncpu : ℕ) (o : Option Outcome) (conf : ConfigData)
    → Parsed true o
    → loaded ncpu o ≡ go conf
    → ConfigOk conf
unfolding loaded
loaded-ConfigOk ncpu none conf p e = absurd p
loaded-ConfigOk ncpu (some (Outcome.loaded c errors stray)) conf p e =
    subst ConfigOk (go-injective c conf e) p.0
loaded-ConfigOk ncpu (some (Outcome.failed error)) conf p e = absurd (ground arith)
loaded-ConfigOk ncpu (some (Outcome.exits error)) conf p e = stop≢go 1 conf e

pub configure-ConfigOk :
    (read_file : Bytes → Option Bytes) (ncpu : ℕ) (r : Resolved) (conf : ConfigData)
    → configure read_file ncpu r ≡ go conf
    → ((path : Bytes) × (r ≡ Resolved.active path)) × ConfigOk conf
unfolding configure
configure-ConfigOk read_file ncpu (Resolved.exits exit_success) conf e = stop≢go 0 conf e
configure-ConfigOk read_file ncpu (Resolved.exits exit_failure) conf e = stop≢go 1 conf e
configure-ConfigOk read_file ncpu (Resolved.active path) conf e = (
  (path, refl),
  loaded-ConfigOk ncpu (init_config ncpu (read_file path)) conf
      (init_config-Parsed ncpu (read_file path)) e,
)

pub detached-go : (d : Daemonized) (p : Process) → detached d ≡ go p → d ≡ Daemonized.daemon p
unfolding detached
detached-go (Daemonized.ends n) p e = stop≢go n p e
detached-go (Daemonized.daemon q) p e = ap Daemonized.daemon (go-injective q p e)

pub lock_path-fits :
    (conf : ConfigData) (cmd path : Bytes) → lock_path conf cmd ≡ go path → length path < path_max
unfolding lock_path
lock_path-fits conf cmd path =
    let p : Bytes = conf.lock_file_path ++ b'/' ∷ cmd ++ codes ".pid" in
    elim (Bool-cases (leb path_max (length p))) [
      | inl t ↦ rw (t, lock_path) (λ e. stop≢go 1 path e)
      | inr t ↦
          rw (t, lock_path)
            (λ e. subst (λ q. length q < path_max) (go-injective p path e) (ground (arith, t)))
    ]

module _ (accounts : Accounts) where
  -- Started by root, the process is a user that is not root; else it is what it was.
  abbrev pub Dropped : Creds → ConfigData → Creds → Type 0
  Dropped start conf later =
      (start.uid ≡ 0 → (g : ℕ) × (u : ℕ) × Unprivileged accounts conf.server_user g u later)
      × (start.uid ≢ 0 → later ≡ start)

  after_drop-Unprivileged :
      (start : Creds) (conf : ConfigData) (r : DropResult) (later : Creds)
      → DropOk accounts start conf.server_user conf.server_group r
      → after_drop r ≡ go later
      → (g : ℕ) × (u : ℕ) × Unprivileged accounts conf.server_user g u later
  unfolding after_drop
  after_drop-Unprivileged start conf (dropped c) later (g, u, a, b, p) e =
      (g, u, subst (Unprivileged accounts conf.server_user g u) (go-injective c later e) p)
  after_drop-Unprivileged start conf (not_dropped error c) later p e = stop≢go 1 later e

  pub drop_if_root-Dropped :
      (start : Creds) (conf : ConfigData) (later : Creds)
      → (start.uid ≡ 0 → start.euid ≡ 0)
      → drop_if_root accounts start conf ≡ go later
      → Dropped start conf later
  unfolding drop_if_root
  drop_if_root-Dropped start conf later root = elim (Bool-cases (start.uid == 0)) [
    | inl t ↦
        let zero_uid : start.uid ≡ 0 = ground (arith, t) in
        let r = drop_privileges accounts start conf.server_user conf.server_group in
        rw (t, drop_if_root)
          (λ e. (
            λ z.
                after_drop-Unprivileged start conf r later
                  (drop_privileges-DropOk accounts start conf.server_user conf.server_group
                    (root zero_uid))
                  e,
            λ ne. absurd (ne zero_uid),
          ))
    | inr t ↦
        let ne : start.uid ≢ 0 = ground (arith, t) in
        rw (t, drop_if_root) (λ e. (λ z. absurd (ne z), λ n. sym (go-injective start later e)))
  ]

module _ (files : FileSystem) (locks : RecordLocks) (accounts : Accounts) where
  pub checked-go :
      (r : Checked files.Fs) (fs : files.Fs)
      → checked files locks accounts r ≡ go fs
      → r ≡ returned fs
  unfolding checked
  checked-go (fatal error) fs e = stop≢go 1 fs e
  checked-go (returned x) fs e = ap returned (go-injective x fs e)

  pub locked-holder :
      (answers : Answers) (l held : locks.Locks) (fd : ℕ)
      → locked files locks accounts answers l fd ≡ go held
      → locks.holder held ≡ some answers.pid
  unfolding locked
  locked-holder answers l held fd =
      let out = already_running locks answers.lock_file l answers.pid fd in
      elim (Bool-cases out.running) [
        | inl t ↦ rw (t, locked) (λ e. stop≢go 1 held e)
        | inr t ↦
            rw (t, locked)
              (λ e.
                subst (λ x. locks.holder x ≡ some answers.pid) (go-injective out.locks held e)
                  (already_running-holder locks answers.lock_file l answers.pid fd t))
      ]

  -- What each stage has seen to.
  pub record Ready (answers : Answers) (fs : files.Fs) (s : Started files locks accounts)
      : Type 0 where
    pub configured : ConfigOk s.conf
    pub tls_complete :
        (s.ssl_ctx.min_proto_version ≡ tls1_2_version)
        × (s.ssl_ctx.certificate ≡ some s.conf.tls_cert_path)
        × (s.ssl_ctx.private_key ≡ some s.conf.tls_key_path)
        × (answers.openssl.key_matches s.conf.tls_cert_path s.conf.tls_key_path ≡ true)
    pub event_log_usable : Usable files fs s.conf.event_log (returned s.fs₁)
    pub access_log_usable : Usable files s.fs₁ s.conf.access_log (returned s.fs₂)
    pub event_log_open : answers.open_log s.conf.event_log ≡ some s.event_log_fd
    pub access_log_open : answers.open_log s.conf.access_log ≡ some s.access_log_fd
    pub http_listens :
        Listening
          (answers.addresses s.conf.http_port)
          (answers.listen_ok s.conf.http_port)
          s.http_sock
    pub https_listens :
        Listening
          (answers.addresses s.conf.https_port)
          (answers.listen_ok s.conf.https_port)
          s.https_sock
    pub daemon :
        (s.process.own_session ≡ true)
        × (s.process.session_leader ≡ false)
        × (s.process.stderr ≡ dev_null)
    pub lock_path_fits : length s.lock_name < path_max
    pub only_one : locks.holder s.locks_held ≡ some answers.pid
    pub unprivileged : Dropped accounts answers.creds s.conf s.creds
