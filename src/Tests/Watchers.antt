-- ===== src/Tests/Watchers.antt =====
-- The watchers of the wait room, over a small epoll and a small kqueue.
mod SmallEpoll
mod SmallKqueue
use celeritas.Prelude.{
  ℕ, zero, suc, ◌≤◌, ◌≡◌, ◌≢◌, refl, sym, ap, ◌∙◌, subst, Bool, true, false, Option, none, some,
  List, [], ◌∷◌, ◌==◌, if◌then◌else◌, arith, ==_refl, ◌⊎◌, inl, inr, length, bit_and, bit_or,
  Bool-cases,
}
use mathlib.Core.List.{Memᴰ}
use mathlib.Core.List.Memᴰ
use mathlib.Core.Option.{some-injective}
use celeritas.IoWatcher.{
  Epoll, EpollEvent, IoEvent, CtlOp, CtlResult, done, failed, epoll_ctl_add, epoll_ctl_mod,
  epoll_ctl_del, epolloneshot, oneshot_event, io_watcher_add, io_watcher_remove, io_watcher_wait,
}
use celeritas.IoWatcher.Contract.{IsWatcher}
use celeritas.IoWatcher.Kqueue
use celeritas.IoWatcher.Kqueue.{Kqueue, Kevent, ev_add, ev_delete, ev_oneshot}
use celeritas.IoWatcher.Kqueue.Once.{OneshotNotes, note_armed, kqueue-IsWatcher}
use celeritas.IoWatcher.Once.{OneshotEntries, entry_armed, epoll-IsWatcher}
use celeritas.IoWatcher.Portable.{Alike, begin, add, wait, io_watcher-IsWatcher, variants-agree}
use celeritas.Tests.{put, Put, put-Put}
use celeritas.Tests.Watchers.SmallEpoll.{Table, enter, a_kernel}
use celeritas.Tests.Watchers.SmallKqueue.{Notes, a_kqueue}

io_watcher-IsWatcher_example :
    IsWatcher
      (Table EpollEvent)
      (OneshotEntries a_kernel)
      (entry_armed a_kernel)
      (io_watcher_add a_kernel)
      (λ k fd. io_watcher_remove a_kernel k fd (oneshot_event 0))
      (io_watcher_wait a_kernel)
    × IsWatcher Notes
        (OneshotNotes a_kqueue)
        (note_armed a_kqueue)
        (Kqueue.io_watcher_add a_kqueue)
        (Kqueue.io_watcher_remove a_kqueue)
        (Kqueue.io_watcher_wait a_kqueue)
io_watcher-IsWatcher_example = io_watcher-IsWatcher a_kernel a_kqueue (oneshot_event 0)

abbrev no_entries : Table EpollEvent
no_entries = record { entries = λ fd. none; on = λ fd. false }

abbrev with_7 : Table EpollEvent
with_7 = enter no_entries 7 (oneshot_event 7)

abbrev fired_7 : Table EpollEvent
fired_7 = record with_7 { on = put with_7.on 7 false }

abbrev no_notes : Notes
no_notes = λ fd. none

abbrev noted_7 : Notes
noted_7 = put no_notes 7 (some (Kqueue.add_event 7 7))

start-Alike :
    Alike
      (epoll-IsWatcher a_kernel (oneshot_event 0))
      (kqueue-IsWatcher a_kqueue)
      no_entries
      no_notes
start-Alike =
    begin {k₁ = no_entries} {k₂ = no_notes} (λ fd e h. absurd (ground (arith, h)))
      (λ fd e h. absurd (ground (arith, h))) (λ fd. refl) (λ fd. refl)

-- The descriptor 7 is registered, reported, and so armed no longer.
fired-Alike :
    Alike
      (epoll-IsWatcher a_kernel (oneshot_event 0))
      (kqueue-IsWatcher a_kqueue)
      fired_7
      (put noted_7 7 none)
unfolding io_watcher_add io_watcher_wait celeritas.IoWatcher.io_event Kqueue.io_watcher_add
    Kqueue.io_watcher_wait Kqueue.io_event Kqueue.add_event Kqueue.timespec
fired-Alike =
    wait 64 1000 (record { userdata = 7; is_error = false } ∷ []) fired_7 (put noted_7 7 none)
      (add 7 with_7 noted_7 start-Alike refl refl) refl refl

variants-agree_example : entry_armed a_kernel fired_7 7 ≡ note_armed a_kqueue (put noted_7 7 none) 7
variants-agree_example =
    variants-agree a_kernel a_kqueue (oneshot_event 0) fired_7 (put noted_7 7 none) fired-Alike 7
