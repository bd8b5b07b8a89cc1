-- ===== src/Server/LockFile.antt =====
-- The lock file of src/server.c: `lockfile` and `already_running`. The record locks of the kernel are a
-- parameter, an interface with what fcntl(2) says of F_SETLK and of closing a file.
pub mod Exclusive
use celeritas.Prelude.{
  ℕ, ◌≡◌, ◌≢◌, Bool, true, false, ◌||◌, Option, none, some, List, [], ◌∷◌, ◌++◌, Bytes,
  if◌then◌else◌, take,
}
use celeritas.Text.Decimal.{show_nat}

-- `errno` of a refused lock.
pub data LockError : Type 0 where
  eacces eagain lock_errno : LockError

-- The lock, or its refusal, which changes nothing.
pub data SetLock (Locks : Type 0) : Type 0 where
  granted : Locks → SetLock Locks
  refused : LockError → SetLock Locks

-- The locks on one file. `holder` is the process that has the lock on the whole of it, and
-- `close_file` what closing a descriptor of it does to the locks of a process.
pub record RecordLocks : Type 1 where
  pub Locks : Type 0
  pub holder : Locks → Option ℕ
  pub f_setlk : Locks → ℕ → SetLock Locks
  pub close_file : Locks → ℕ → Locks
  pub granted_holder :
      (l : Locks) (pid : ℕ) (later : Locks)
      → f_setlk l pid ≡ granted later
      → holder later ≡ some pid
  pub granted_free :
      (l : Locks) (pid other : ℕ) (later : Locks)
      → f_setlk l pid ≡ granted later
      → holder l ≡ some other
      → other ≡ pid
  pub close_other :
      (l : Locks) (pid other : ℕ)
      → holder l ≡ some other
      → other ≢ pid
      → holder (close_file l pid) ≡ some other

pub data LockMessage : Type 0 where
  cannot_open cannot_lock cannot_truncate cannot_write : LockMessage

-- The answers of the calls on the file: the descriptor that `open` gives, whether `ftruncate`
-- succeeds, and how many bytes `write` takes.
pub record FileAnswers : Type 0 where
  pub opened : Option ℕ
  pub truncated : Bool
  pub written : Option ℕ

-- What the call comes to: the answer, the locks, the messages with the descriptors that they are
-- written to, and what was written to the file.
pub record LockOutcome (Locks : Type 0) : Type 0 where
  pub running : Bool
  pub locks : Locks
  pub messages : List (ℕ × LockMessage)
  pub wrote : Option Bytes

module _ (kernel : RecordLocks) where
  -- `lockfile`
  unfoldable pub lockfile : kernel.Locks → ℕ → SetLock kernel.Locks
  lockfile l pid = kernel.f_setlk l pid

  -- From the `ftruncate` on, with the lock on `fd`. The message about the write goes to `fd`.
  unfoldable pub write_pid : FileAnswers → kernel.Locks → ℕ → ℕ → ℕ → LockOutcome kernel.Locks
  write_pid answers l pid fd elfd =
      let first = if answers.truncated then [] else (elfd, cannot_truncate) ∷ [] in
      elim answers.written [
        | none ↦ record {
          running = true;
          locks = l;
          messages = first ++ (fd, cannot_write) ∷ [];
          wrote = none;
        }
        | some n ↦ record {
          running = false;
          locks = l;
          messages = first;
          wrote = some (take n (show_nat pid));
        }
      ]

  -- The branches for a lock that is refused. For a lock that another process has, the file is closed.
  unfoldable pub lock_refused : LockError → kernel.Locks → ℕ → ℕ → LockOutcome kernel.Locks
  lock_refused lock_errno l pid elfd = record {
    running = true;
    locks = l;
    messages = (elfd, cannot_lock) ∷ [];
    wrote = none;
  }
  lock_refused _ l pid elfd = record {
    running = true;
    locks = kernel.close_file l pid;
    messages = [];
    wrote = none;
  }

  -- `already_running`; `running` is its result 1.
  unfoldable pub already_running : FileAnswers → kernel.Locks → ℕ → ℕ → LockOutcome kernel.Locks
  already_running answers l pid elfd = elim answers.opened [
    | none ↦ record { running = true; locks = l; messages = (elfd, cannot_open) ∷ []; wrote = none }
    | some fd ↦ elim (lockfile l pid) [
      | granted later ↦ write_pid answers later pid fd elfd
      | refused error ↦ lock_refused error l pid elfd
    ]
  ]
