-- ===== src/IoWatcher/Kqueue/Once.antt =====
-- The functions over kqueue and the contract of a watcher.
use celeritas.Prelude.{
  ℕ, length-map, ◌≤◌, ◌≡◌, ◌≢◌, refl, sym, ap, ◌∙◌, subst, Option, none, some, List, map, length,
  inl, inr, bit_and, arith,
}
use celeritas.IoWatcher.{IoEvent}
use celeritas.IoWatcher.Contract.{kept, IsWatcher, Option-cases, Every, changed-Every}
use celeritas.IoWatcher.Kqueue
use celeritas.IoWatcher.Kqueue.{
  Kqueue, Kevent, evfilt_read, ev_add, ev_oneshot, add_event, delete_event, timespec,
}
use mathlib.Core.List.{Memᴰ}
use mathlib.Core.List.Memᴰ
use mathlib.Core.Option.{some-injective}

module _ (kernel : Kqueue) where
  abbrev pub Once : Kevent → Type 0
  Once e = bit_and e.flags ev_oneshot ≡ ev_oneshot

  -- Every read filter was set by `io_watcher_add`.
  abbrev pub OneshotNotes : kernel.Queue → Type 0
  OneshotNotes k = Every Once (kernel.knote k)

  abbrev pub note_udata : Option Kevent → Option ℕ
  note_udata none = none
  note_udata (some e) = some e.udata

  abbrev pub note_armed : kernel.Queue → ℕ → Option ℕ
  note_armed k fd = note_udata (kernel.knote k fd)

  added :
      (k : kernel.Queue) (fd userdata : ℕ) (k' : kernel.Queue)
      → Kqueue.io_watcher_add kernel k fd userdata ≡ some k'
      → (kernel.knote k' fd ≡ some (add_event fd userdata))
        × ((other : ℕ) → other ≢ fd → kernel.knote k' other ≡ kernel.knote k other)
  unfolding Kqueue.io_watcher_add add_event
  added k fd userdata k' = elim (Option-cases (kernel.change k (add_event fd userdata))) [
    | inl e ↦ rw (e, Kqueue.io_watcher_add) (λ f. absurd (ground arith))
    | inr (k'', e) ↦
        rw (e, Kqueue.io_watcher_add)
          (λ f. kernel.add_done k (add_event fd userdata) k' refl refl (e ∙ f))
  ]

  removed :
      (k : kernel.Queue) (fd : ℕ)
      → (kernel.knote (kept k (Kqueue.io_watcher_remove kernel k fd)) fd ≡ none)
        × ((other : ℕ)
            → other ≢ fd
            → kernel.knote (kept k (Kqueue.io_watcher_remove kernel k fd)) other
              ≡ kernel.knote k other)
  unfolding Kqueue.io_watcher_remove delete_event
  removed k fd = elim (Option-cases (kernel.change k (delete_event fd))) [
    | inl e ↦
        rw (e, Kqueue.io_watcher_remove)
          (kernel.delete_failed k (delete_event fd) refl refl e, λ other ne. refl)
    | inr (k', e) ↦
        rw (e, Kqueue.io_watcher_remove) (kernel.delete_done k (delete_event fd) k' refl refl e)
  ]

  collected :
      (k : kernel.Queue) (max_events timeout : ℕ) (events : List IoEvent) (k' : kernel.Queue)
      → Kqueue.io_watcher_wait kernel k max_events timeout ≡ some (events, k')
      → (list : List Kevent) × (events ≡ map Kqueue.io_event list)
        × (kernel.collect k max_events (timespec timeout).0 (timespec timeout).1 ≡ some (list, k'))
  unfolding Kqueue.io_watcher_wait
  collected k max_events timeout events k' =
      elim (Option-cases (kernel.collect k max_events (timespec timeout).0 (timespec timeout).1)) [
        | inl e ↦ rw (e, Kqueue.io_watcher_wait) (λ f. absurd (ground arith))
        | inr (r, e) ↦
            rw (e, Kqueue.io_watcher_wait)
              (λ f.
                let g = some-injective _ _ f in
                (r.0, sym (ap (λ p. p.0) g), ap (λ q. some (r.0, q)) (ap (λ p. p.1) g)))
      ]

  -- What `EV_SET` of `io_watcher_add` asks for is one report.
  add_event-Once : (fd userdata : ℕ) → bit_and (add_event fd userdata).flags ev_oneshot ≡ ev_oneshot
  unfolding add_event
  add_event-Once fd userdata = refl

  added_udata : (fd userdata : ℕ) → note_udata (some (add_event fd userdata)) ≡ some userdata
  unfolding add_event
  added_udata fd userdata = refl

  io_event-udata : (e : Kevent) → (Kqueue.io_event e).userdata ≡ e.udata
  unfolding Kqueue.io_event
  io_event-udata e = ground arith

  -- The functions over kqueue are a watcher.
  pub kqueue-IsWatcher :
      IsWatcher kernel.Queue OneshotNotes note_armed
        (Kqueue.io_watcher_add kernel)
        (Kqueue.io_watcher_remove kernel)
        (Kqueue.io_watcher_wait kernel)
  kqueue-IsWatcher = record {
    add_valid = λ k fd userdata k' v h.
        changed-Every Once (kernel.knote k) (kernel.knote k') fd (some (add_event fd userdata))
          (added k fd userdata k' h)
          (λ e f. subst Once (some-injective _ _ f) (add_event-Once fd userdata)) v;
    add_arms = λ k fd userdata k' h.
        let a = added k fd userdata k' h in
        (ap note_udata a.0 ∙ added_udata fd userdata, λ other ne. ap note_udata (a.1 other ne));
    remove_valid = λ k fd v.
        changed-Every Once (kernel.knote k)
          (kernel.knote (kept k (Kqueue.io_watcher_remove kernel k fd))) fd none (removed k fd)
          (λ e f. absurd (ground arith)) v;
    remove_disarms = λ k fd.
        let a = removed k fd in (ap note_udata a.0, λ other ne. ap note_udata (a.1 other ne));
    wait_valid = λ k n t events k' v h fd e f.
        let (list, same, c) = collected k n t events k' h in
        elim (kernel.collect_keeps k n (timespec t).0 (timespec t).1 list k' fd c) [
          | inl p ↦ v fd e (sym p ∙ f)
          | inr (ev, e', m, h₁, h₂, gone) ↦ absurd (ground (arith, gone, f))
        ];
    wait_fits = λ k n t events k' h.
        let (list, same, c) = collected k n t events k' h in
        subst (λ l. l ≤ n) (sym (ap length same ∙ length-map Kqueue.io_event list))
          (kernel.collect_fits k n (timespec t).0 (timespec t).1 list k' c);
    wait_reports = λ k n t events k' event v h m.
        let (list, same, c) = collected k n t events k' h in
        let (ev, m', is) = Memᴰ.of_map Kqueue.io_event list (subst (Memᴰ event) same m) in
        let (fd, e, there, names, gone) =
          kernel.collect_reports k n (timespec t).0 (timespec t).1 list k' ev c m' in
        (
          fd,
          ap note_udata there
              ∙ ap some (sym names ∙ sym (io_event-udata ev) ∙ ap (λ x. x.userdata) is),
          ap note_udata (gone (v fd e there)),
        );
    wait_keeps = λ k n t events k' fd v h.
        let (list, same, c) = collected k n t events k' h in
        elim (kernel.collect_keeps k n (timespec t).0 (timespec t).1 list k' fd c) [
          | inl p ↦ inl (ap note_udata p)
          | inr (ev, e, m, there, names, gone) ↦ inr (
            Kqueue.io_event ev,
            subst (Memᴰ (Kqueue.io_event ev)) (sym same) (Memᴰ.map Kqueue.io_event m),
            ap note_udata there ∙ ap some (sym names ∙ sym (io_event-udata ev)),
            ap note_udata gone,
          )
        ];
  }
