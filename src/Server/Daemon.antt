-- ===== src/Server/Daemon.antt =====
-- `daemonize` of src/server.c, over the answers of the operating system.
use celeritas.Prelude.{
  ℕ, ◌≡◌, refl, ap, subst, Bool, true, false, Option, none, some, Bytes, if◌then◌else◌, ltb, arith,
}
use celeritas.Text.{codes}

-- `fork` fails, or its result tells which of the two processes this is.
pub data Fork : Type 0 where
  fork_failed fork_parent fork_child : Fork

-- What a standard descriptor refers to.
pub data Stream : Type 0 where
  terminal dev_null : Stream

-- The attributes of the process that the function changes. `spare_fd` is a descriptor of /dev/null
-- that is open beside the standard ones.
pub record Process : Type 0 where
  pub file_mask : ℕ
  pub own_session : Bool
  pub session_leader : Bool
  pub working_dir : Bytes
  pub stdin : Stream
  pub stdout : Stream
  pub stderr : Stream
  pub spare_fd : Option ℕ

-- The process ends with a status, or goes on.
pub data Daemonized : Type 0 where
  ends : ℕ → Daemonized
  daemon : Process → Daemonized

-- From the `open` on: `fd` is its result. `dup2` of an open descriptor to a standard one succeeds.
unfoldable pub redirect : Option ℕ → Process → Daemonized
redirect none process = ends 1
redirect (some fd) process = daemon (record process {
  stdin = dev_null;
  stdout = dev_null;
  stderr = dev_null;
  spare_fd = if ltb 2 fd then none else process.spare_fd;
})

-- From the second `fork` on. The child of a session leader is none.
unfoldable pub second_fork : Fork → Bool → Option ℕ → Process → Daemonized
second_fork fork_failed chdir_ok fd process = ends 1
second_fork fork_parent chdir_ok fd process = ends 0
second_fork fork_child chdir_ok fd process =
    if chdir_ok
    then redirect fd (record process { session_leader = false; working_dir = codes "/" })
    else ends 1

-- `daemonize`
unfoldable pub daemonize : Fork → Fork → Bool → Option ℕ → Process → Daemonized
daemonize fork_failed fork₂ chdir_ok fd process = ends 1
daemonize fork_parent fork₂ chdir_ok fd process = ends 0
daemonize fork_child fork₂ chdir_ok fd process =
    second_fork fork₂ chdir_ok fd
      (record process { file_mask = 0; own_session = true; session_leader = true })

-- The process in which `daemonize` returns has a session of its own without leading it, so that it
-- cannot get a terminal again, works in the root directory, and has /dev/null for its standard
-- descriptors. It is the child of both forks.
pub daemonize-detached :
    (fork₁ fork₂ : Fork) (chdir_ok : Bool) (fd : Option ℕ) (process later : Process)
    → daemonize fork₁ fork₂ chdir_ok fd process ≡ daemon later
    → (fork₁ ≡ fork_child)
      × (fork₂ ≡ fork_child)
      × (later.own_session ≡ true)
      × (later.session_leader ≡ false)
      × (later.working_dir ≡ codes "/")
      × (later.stdin ≡ dev_null)
      × (later.stdout ≡ dev_null)
      × (later.stderr ≡ dev_null)
unfolding daemonize second_fork redirect
daemonize-detached fork_failed fork₂ chdir_ok fd process later e = absurd (ground arith)
daemonize-detached fork_parent fork₂ chdir_ok fd process later e = absurd (ground arith)
daemonize-detached fork_child fork_failed chdir_ok fd process later e = absurd (ground arith)
daemonize-detached fork_child fork_parent chdir_ok fd process later e = absurd (ground arith)
daemonize-detached fork_child fork_child false fd process later e = absurd (ground arith)
daemonize-detached fork_child fork_child true none process later e = absurd (ground arith)
daemonize-detached fork_child fork_child true (some n) process later e =
    let process_of : Daemonized → Process = λ d. elim d [ ends s ↦ process | daemon p ↦ p ] in
    subst
      (λ p.
        (fork_child ≡ fork_child)
        × (fork_child ≡ fork_child)
        × (p.own_session ≡ true)
        × (p.session_leader ≡ false)
        × (p.working_dir ≡ codes "/")
        × (p.stdin ≡ dev_null)
        × (p.stdout ≡ dev_null)
        × (p.stderr ≡ dev_null))
      (ap process_of e) (refl, refl, refl, refl, refl, refl, refl, refl)
