-- ===== src/Server/LockFile/Exclusive.antt =====
-- What other processes get from `already_running` while one holds the lock.
use celeritas.Prelude.{
  ℕ, ◌≡◌, ◌≢◌, ◌⊎◌, inl, inr, refl, ap, ◌∙◌, true, false, some, List, [], ◌∷◌, All, arith,
  Option-cases,
}
use celeritas.Server.LockFile.{
  LockError, eacces, eagain, lock_errno, SetLock, granted, refused, RecordLocks, FileAnswers,
  lockfile, write_pid, lock_refused, already_running,
}

module _ (kernel : RecordLocks) where
  SetLock-cases :
      (r : SetLock kernel.Locks)
      → ((l : kernel.Locks) × (r ≡ granted l)) ⊎ ((error : LockError) × (r ≡ refused error))
  SetLock-cases (granted l) = inl (l, refl)
  SetLock-cases (refused error) = inr (error, refl)

  write_pid-locks :
      (answers : FileAnswers) (l : kernel.Locks) (pid fd elfd : ℕ)
      → (write_pid kernel answers l pid fd elfd).locks ≡ l
  unfolding write_pid
  write_pid-locks answers l pid fd elfd = elim (Option-cases answers.written) [
    | inl n ↦ rw (n, write_pid) refl
    | inr (k, s) ↦ rw (s, write_pid) refl
  ]

  lock_refused-running :
      (error : LockError) (l : kernel.Locks) (pid elfd : ℕ)
      → (lock_refused kernel error l pid elfd).running ≡ true
  unfolding lock_refused
  lock_refused-running eacces l pid elfd = refl
  lock_refused-running eagain l pid elfd = refl
  lock_refused-running lock_errno l pid elfd = refl

  lock_refused-holder :
      (error : LockError) (l : kernel.Locks) (pid elfd p : ℕ)
      → kernel.holder l ≡ some p
      → p ≢ pid
      → kernel.holder (lock_refused kernel error l pid elfd).locks ≡ some p
  unfolding lock_refused
  lock_refused-holder eacces l pid elfd p h ne = kernel.close_other l pid p h ne
  lock_refused-holder eagain l pid elfd p h ne = kernel.close_other l pid p h ne
  lock_refused-holder lock_errno l pid elfd p h ne = h

  -- A process for which `already_running` returns 0 has the lock.
  pub already_running-holder :
      (answers : FileAnswers) (l : kernel.Locks) (pid elfd : ℕ)
      → (already_running kernel answers l pid elfd).running ≡ false
      → kernel.holder (already_running kernel answers l pid elfd).locks ≡ some pid
  unfolding already_running lockfile
  already_running-holder answers l pid elfd = elim (Option-cases answers.opened) [
    | inl n ↦ rw (n, already_running) (λ f. absurd (ground arith))
    | inr (fd, s) ↦ elim (SetLock-cases (kernel.f_setlk l pid)) [
      | inl (later, t) ↦
          rw (s, already_running)
            (rw (t, lockfile)
              (λ f.
                ap kernel.holder (write_pid-locks answers later pid fd elfd)
                ∙ kernel.granted_holder l pid later t))
      | inr (error, t) ↦
          rw (s, already_running)
            (rw (t, lockfile)
              (λ f. let e = lock_refused-running error l pid elfd in absurd (ground arith)))
    ]
  ]

  -- Another process finds the lock taken.
  already_running-taken :
      (answers : FileAnswers) (l : kernel.Locks) (pid elfd p : ℕ)
      → kernel.holder l ≡ some p
      → p ≢ pid
      → ((already_running kernel answers l pid elfd).running ≡ true)
        × (kernel.holder (already_running kernel answers l pid elfd).locks ≡ some p)
  unfolding already_running lockfile
  already_running-taken answers l pid elfd p h ne = elim (Option-cases answers.opened) [
    | inl n ↦ rw (n, already_running) (refl, h)
    | inr (fd, s) ↦ elim (SetLock-cases (kernel.f_setlk l pid)) [
      | inl (later, t) ↦ absurd (ne (kernel.granted_free l pid p later t h))
      | inr (error, t) ↦
          rw (s, already_running)
            (rw (t, lockfile)
              (lock_refused-running error l pid elfd, lock_refused-holder error l pid elfd p h ne))
    ]
  ]

  -- A process that starts: its answers, its pid and the descriptor of its event log.
  abbrev pub Start : Type 0
  Start = FileAnswers × ℕ × ℕ

  -- Each process calls `already_running` in turn, and none of them ends.
  abbrev pub AllRefused : kernel.Locks → List Start → Type 0
  AllRefused l [] = Unit
  AllRefused l (s ∷ ss) =
      ((already_running kernel s.0 l s.1 s.2).running ≡ true)
      × AllRefused (already_running kernel s.0 l s.1 s.2).locks ss

  AllRefused-taken :
      (l : kernel.Locks) (p : ℕ) (starts : List Start)
      → kernel.holder l ≡ some p
      → All (λ s. p ≢ s.1) starts
      → AllRefused l starts
  AllRefused-taken l p [] h a = tt
  AllRefused-taken l p ((answers, pid, elfd) ∷ ss) h (ne, a) =
      let (r, later) = already_running-taken answers l pid elfd p h ne in
      (r, AllRefused-taken (already_running kernel answers l pid elfd).locks p ss later a)

  -- After `already_running` has returned 0 to one process, it returns 1 to every other that calls it,
  -- however many do so one after the other and whatever the calls on the file answer them, as long as
  -- the first does not end.
  pub already_running-exclusive :
      (answers : FileAnswers) (l : kernel.Locks) (pid elfd : ℕ) (others : List Start)
      → (already_running kernel answers l pid elfd).running ≡ false
      → All (λ s. pid ≢ s.1) others
      → AllRefused (already_running kernel answers l pid elfd).locks others
  already_running-exclusive answers l pid elfd others r a =
      AllRefused-taken (already_running kernel answers l pid elfd).locks pid others
        (already_running-holder answers l pid elfd r) a
