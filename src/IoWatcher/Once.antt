-- ===== src/IoWatcher/Once.antt =====
-- The functions over epoll and the contract of a watcher.
use celeritas.Prelude.{
  ℕ, length-map, ◌≤◌, ◌≡◌, ◌≢◌, refl, sym, ap, ap₂, ◌∙◌, subst, Bool, true, false, Option, none,
  some, List, map, length, inl, inr, bit_and, arith, if◌then◌else◌,
}
use celeritas.IoWatcher.{
  Epoll, EpollEvent, IoEvent, epoll_ctl_add, epoll_ctl_mod, epoll_ctl_del, epolloneshot,
  oneshot_event, rearm, io_watcher_add, io_watcher_remove, io_watcher_wait, io_event,
}
use celeritas.IoWatcher.Armed.{CtlResult-cases, io_watcher_add-Armed}
use celeritas.IoWatcher.Contract.{kept, IsWatcher, Option-cases, Every, changed-Every}
use mathlib.Core.List.{Memᴰ}
use mathlib.Core.List.Memᴰ
use mathlib.Core.Option.{some-injective}

module _ (kernel : Epoll) where
  abbrev pub Once : EpollEvent → Type 0
  Once e = bit_and e.events epolloneshot ≡ epolloneshot

  abbrev pub OneshotEntries : kernel.Watched → Type 0
  OneshotEntries k = Every Once (kernel.entry k)

  abbrev pub data_of : Option EpollEvent → Option ℕ
  data_of none = none
  data_of (some e) = some e.data_ptr

  -- A descriptor that is not enabled is in the set, but not armed.
  abbrev pub entry_armed : kernel.Watched → ℕ → Option ℕ
  entry_armed k fd = if kernel.enabled k fd then data_of (kernel.entry k fd) else none

  abbrev Enabled : kernel.Watched → ℕ → kernel.Watched → Type 0
  Enabled k fd k' =
      (kernel.enabled k' fd ≡ true)
      × ((other : ℕ) → other ≢ fd → kernel.enabled k' other ≡ kernel.enabled k other)

  rearm-Enabled :
      (k : kernel.Watched) (fd userdata : ℕ) (k' : kernel.Watched)
      → rearm kernel k fd userdata ≡ some k'
      → Enabled k fd k'
  unfolding rearm
  rearm-Enabled k fd userdata later =
      let event = oneshot_event userdata in
      elim (CtlResult-cases kernel (kernel.epoll_ctl k epoll_ctl_mod fd event)) [
        | inl (k', e) ↦
            rw (e, rearm)
              (λ f. subst (Enabled k fd) (some-injective _ _ f) (
                kernel.mod_enables k fd event k' e,
                λ other. kernel.ctl_others k epoll_ctl_mod fd event k' other e,
              ))
        | inr (exists, e) ↦ rw (e, rearm) (λ f. absurd (ground arith))
      ]

  add-Enabled :
      (k : kernel.Watched) (fd userdata : ℕ) (k' : kernel.Watched)
      → io_watcher_add kernel k fd userdata ≡ some k'
      → Enabled k fd k'
  unfolding io_watcher_add
  add-Enabled k fd userdata later =
      let event = oneshot_event userdata in
      elim (CtlResult-cases kernel (kernel.epoll_ctl k epoll_ctl_add fd event)) [
        | inl (k', e) ↦
            rw (e, io_watcher_add)
              (λ f. subst (Enabled k fd) (some-injective _ _ f) (
                kernel.add_enables k fd event k' e,
                λ other. kernel.ctl_others k epoll_ctl_add fd event k' other e,
              ))
        | inr (true, e) ↦ rw (e, io_watcher_add) (rearm-Enabled k fd userdata later)
        | inr (false, e) ↦ rw (e, io_watcher_add) (λ f. absurd (ground arith))
      ]

  taken_out :
      (k : kernel.Watched) (fd : ℕ) (ignored : EpollEvent)
      → (kernel.entry (kept k (io_watcher_remove kernel k fd ignored)) fd ≡ none)
        × ((other : ℕ)
            → other ≢ fd
            → kernel.entry (kept k (io_watcher_remove kernel k fd ignored)) other
              ≡ kernel.entry k other)
        × ((other : ℕ)
            → other ≢ fd
            → kernel.enabled (kept k (io_watcher_remove kernel k fd ignored)) other
              ≡ kernel.enabled k other)
  unfolding io_watcher_remove
  taken_out k fd ignored =
      elim (CtlResult-cases kernel (kernel.epoll_ctl k epoll_ctl_del fd ignored)) [
        | inl (k', e) ↦
            let d = kernel.del_done k fd ignored k' e in
            rw (e, io_watcher_remove)
              (d.0, d.1, λ other. kernel.ctl_others k epoll_ctl_del fd ignored k' other e)
        | inr (exists, e) ↦
            rw (e, io_watcher_remove)
              (kernel.del_failed k fd ignored exists e, λ other ne. refl, λ other ne. refl)
      ]

  waited :
      (k : kernel.Watched) (max_events timeout : ℕ) (events : List IoEvent) (k' : kernel.Watched)
      → io_watcher_wait kernel k max_events timeout ≡ some (events, k')
      → (list : List EpollEvent) × (events ≡ map (io_event kernel) list)
        × (kernel.epoll_wait k max_events timeout ≡ some (list, k'))
  unfolding io_watcher_wait
  waited k max_events timeout events k' =
      elim (Option-cases (kernel.epoll_wait k max_events timeout)) [
        | inl e ↦ rw (e, io_watcher_wait) (λ f. absurd (ground arith))
        | inr (r, e) ↦
            rw (e, io_watcher_wait)
              (λ f.
                let g = some-injective _ _ f in
                (r.0, sym (ap (λ p. p.0) g), ap (λ q. some (r.0, q)) (ap (λ p. p.1) g)))
      ]

  entry_armed-enabled :
      (k : kernel.Watched) (fd : ℕ) (e : EpollEvent)
      → kernel.enabled k fd ≡ true
      → kernel.entry k fd ≡ some e
      → entry_armed k fd ≡ some e.data_ptr
  entry_armed-enabled k fd e on there = rw (on, there) refl

  entry_armed-disabled :
      (k : kernel.Watched) (fd : ℕ) → kernel.enabled k fd ≡ false → entry_armed k fd ≡ none
  entry_armed-disabled k fd off = rw off refl

  data_of-absent :
      (b : Bool) (o : Option EpollEvent) → o ≡ none → (if b then data_of o else none) ≡ none
  data_of-absent true o h = ap data_of h
  data_of-absent false o h = refl

  entry_armed-same :
      (k k' : kernel.Watched) (fd : ℕ)
      → kernel.enabled k' fd ≡ kernel.enabled k fd
      → kernel.entry k' fd ≡ kernel.entry k fd
      → entry_armed k' fd ≡ entry_armed k fd
  entry_armed-same k k' fd on there = ap₂ (λ b e. if b then data_of e else none) on there

  io_event-udata : (e : EpollEvent) → e.data_ptr ≡ (io_event kernel e).userdata
  unfolding io_event
  io_event-udata e = refl

  oneshot_event-Once : (userdata : ℕ) → Once (oneshot_event userdata)
  oneshot_event-Once userdata = refl

  -- The functions over epoll are a watcher.
  pub epoll-IsWatcher :
      (ignored : EpollEvent)
      → IsWatcher kernel.Watched OneshotEntries entry_armed
          (io_watcher_add kernel)
          (λ k fd. io_watcher_remove kernel k fd ignored)
          (io_watcher_wait kernel)
  epoll-IsWatcher ignored = record {
    add_valid = λ k fd userdata k' v h.
        changed-Every Once (kernel.entry k) (kernel.entry k') fd (some (oneshot_event userdata))
          (io_watcher_add-Armed kernel k fd userdata k' h)
          (λ e f. subst Once (some-injective _ _ f) (oneshot_event-Once userdata)) v;
    add_arms = λ k fd userdata k' h.
        let there = io_watcher_add-Armed kernel k fd userdata k' h in
        let on = add-Enabled k fd userdata k' h in
        (
          entry_armed-enabled k' fd (oneshot_event userdata) on.0 there.0,
          λ other ne. entry_armed-same k k' other (on.1 other ne) (there.1 other ne),
        );
    remove_valid = λ k fd v.
        let out = taken_out k fd ignored in
        changed-Every Once (kernel.entry k)
          (kernel.entry (kept k (io_watcher_remove kernel k fd ignored))) fd none (out.0, out.1)
          (λ e f. absurd (ground arith)) v;
    remove_disarms = λ k fd.
        let out = taken_out k fd ignored in
        let k' = kept k (io_watcher_remove kernel k fd ignored) in
        (
          data_of-absent (kernel.enabled k' fd) (kernel.entry k' fd) out.0,
          λ other ne. entry_armed-same k k' other (out.2 other ne) (out.1 other ne),
        );
    wait_valid = λ k n t events k' v h fd e f.
        let (list, same, c) = waited k n t events k' h in
        v fd e (sym (kernel.wait_entries k n t list k' fd c) ∙ f);
    wait_fits = λ k n t events k' h.
        let (list, same, c) = waited k n t events k' h in
        subst (λ l. l ≤ n) (sym (ap length same ∙ length-map (io_event kernel) list))
          (kernel.wait_fits k n t list k' c);
    wait_reports = λ k n t events k' event v h m.
        let (list, same, c) = waited k n t events k' h in
        let (ev, m', is) = Memᴰ.of_map (io_event kernel) list (subst (Memᴰ event) same m) in
        let (fd, e, there, names, on, off) = kernel.wait_reports k n t list k' ev c m' in
        (
          fd,
          entry_armed-enabled k fd e on there
              ∙ ap some (sym names ∙ io_event-udata ev ∙ ap (λ x. x.userdata) is),
          entry_armed-disabled k' fd (off (v fd e there)),
        );
    wait_keeps = λ k n t events k' fd v h.
        let (list, same, c) = waited k n t events k' h in
        elim (kernel.wait_keeps k n t list k' fd c) [
          | inl p ↦ inl (entry_armed-same k k' fd p (kernel.wait_entries k n t list k' fd c))
          | inr (ev, e, m, there, names, on, off) ↦ inr (
            io_event kernel ev,
            subst (Memᴰ (io_event kernel ev)) (sym same) (Memᴰ.map (io_event kernel) m),
            entry_armed-enabled k fd e on there ∙ ap some (sym names ∙ io_event-udata ev),
            entry_armed-disabled k' fd off,
          )
        ];
  }
