-- ===== src/IoWatcher/Armed.antt =====
-- What registering and removing a descriptor does to the kernel's set.
use celeritas.Prelude.{ℕ, ◌≡◌, ◌≢◌, refl, Bool, true, false, some, ◌⊎◌, inl, inr, subst, arith}
use celeritas.IoWatcher.{
  Epoll, EpollEvent, CtlResult, done, failed, epoll_ctl_add, epoll_ctl_mod, oneshot_event, rearm,
  io_watcher_add,
}
use mathlib.Core.Option.{some-injective}

module _ (kernel : Epoll) where
  -- `later` watches `fd` for one event that names `userdata`, and every other descriptor as `k` does.
  abbrev pub Armed : kernel.Watched → ℕ → ℕ → kernel.Watched → Type 0
  Armed k fd userdata later =
      (kernel.entry later fd ≡ some (oneshot_event userdata))
      × ((other : ℕ) → other ≢ fd → kernel.entry later other ≡ kernel.entry k other)

  pub CtlResult-cases :
      (r : CtlResult kernel.Watched)
      → ((k' : kernel.Watched) × (r ≡ done k')) ⊎ ((exists : Bool) × (r ≡ failed exists))
  CtlResult-cases (done k') = inl (k', refl)
  CtlResult-cases (failed exists) = inr (exists, refl)

  rearm-Armed :
      (k : kernel.Watched) (fd userdata : ℕ) (later : kernel.Watched)
      → rearm kernel k fd userdata ≡ some later
      → Armed k fd userdata later
  unfolding rearm
  rearm-Armed k fd userdata later =
      elim (CtlResult-cases (kernel.epoll_ctl k epoll_ctl_mod fd (oneshot_event userdata))) [
        | inl (k', e) ↦
            rw (e, rearm)
              (λ f.
                subst (Armed k fd userdata) (some-injective _ _ f)
                  (kernel.mod_done k fd (oneshot_event userdata) k' e))
        | inr (exists, e) ↦ rw (e, rearm) (λ f. absurd (ground arith))
      ]

  -- When `io_watcher_add` returns 0, the descriptor is watched for one event of readability that
  -- names its userdata, whether it was new or known from an earlier time, and no other descriptor is
  -- touched.
  pub io_watcher_add-Armed :
      (k : kernel.Watched) (fd userdata : ℕ) (later : kernel.Watched)
      → io_watcher_add kernel k fd userdata ≡ some later
      → Armed k fd userdata later
  unfolding io_watcher_add
  io_watcher_add-Armed k fd userdata later =
      elim (CtlResult-cases (kernel.epoll_ctl k epoll_ctl_add fd (oneshot_event userdata))) [
        | inl (k', e) ↦
            rw (e, io_watcher_add)
              (λ f.
                subst (Armed k fd userdata) (some-injective _ _ f)
                  (kernel.add_done k fd (oneshot_event userdata) k' e))
        | inr (true, e) ↦ rw (e, io_watcher_add) (rearm-Armed k fd userdata later)
        | inr (false, e) ↦ rw (e, io_watcher_add) (λ f. absurd (ground arith))
      ]

  -- A descriptor that the kernel still watches, or has disarmed after an event, is always taken by
  -- `io_watcher_add`: it is armed again with the new userdata, and no other descriptor is touched.
  pub io_watcher_add-again :
      (k : kernel.Watched) (fd userdata : ℕ) (old : EpollEvent)
      → kernel.entry k fd ≡ some old
      → (later : kernel.Watched) × (io_watcher_add kernel k fd userdata ≡ some later)
        × Armed k fd userdata later
  unfolding io_watcher_add rearm
  io_watcher_add-again k fd userdata old h =
      let event = oneshot_event userdata in
      let e = kernel.add_exists k fd event old h in
      let (k', f) = kernel.mod_present k fd event old h in
      (k', rw (e, io_watcher_add) (rw (f, rearm) refl), kernel.mod_done k fd event k' f)
