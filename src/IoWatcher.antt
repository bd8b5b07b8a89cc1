-- ===== src/IoWatcher.antt =====
-- The watcher of src/io_watcher.c on Linux: the descriptors that the kernel watches for the wait room.
-- `epoll` is a parameter, an interface with what epoll_ctl(2) and epoll_wait(2) document. Kqueue has
-- the other variant, over an interface of its own.
pub mod Armed
pub mod Contract
pub mod Kqueue
pub mod Once
pub mod Portable
use celeritas.Prelude.{
  ℕ, ◌+◌, ◌^◌, ◌≤◌, ◌≡◌, ◌≢◌, Bool, true, false, not, Option, none, some, List, map, length, ◌==◌,
  if◌then◌else◌, bit_and, bit_or, max, ◌⊎◌,
}
use mathlib.Core.List.{Memᴰ}

-- `io_event_t`. The wait room stores the descriptor in `userdata`.
pub record IoEvent : Type 0 where
  pub userdata : ℕ
  pub is_error : Bool

-- `struct epoll_event`
pub record EpollEvent : Type 0 where
  pub events : ℕ
  pub data_ptr : ℕ

abbrev pub epollin : ℕ
epollin = 1

abbrev pub epollerr : ℕ
epollerr = 8

abbrev pub epollhup : ℕ
epollhup = 16

abbrev pub epolloneshot : ℕ
epolloneshot = 2 ^ 30

pub data CtlOp : Type 0 where
  epoll_ctl_add epoll_ctl_del epoll_ctl_mod : CtlOp

-- What `epoll_ctl` comes to: the new set, or a failure, which changes nothing, and whether it is
-- EEXIST.
pub data CtlResult (Watched : Type 0) : Type 0 where
  done : Watched → CtlResult Watched
  failed : Bool → CtlResult Watched

-- The kernel's side: its set of descriptors, and what the manual says. `entry` looks at the set, and
-- `enabled` says whether a descriptor of it can report an event, which a one-shot descriptor that has
-- reported one cannot.
pub record Epoll : Type 1 where
  pub Watched : Type 0
  pub entry : Watched → ℕ → Option EpollEvent
  pub enabled : Watched → ℕ → Bool
  pub epoll_ctl : Watched → CtlOp → ℕ → EpollEvent → CtlResult Watched
  pub epoll_wait : Watched → ℕ → ℕ → Option (List EpollEvent × Watched)
  pub add_done :
      (k : Watched) (fd : ℕ) (e : EpollEvent) (k' : Watched)
      → epoll_ctl k epoll_ctl_add fd e ≡ done k'
      → (entry k' fd ≡ some e) × ((other : ℕ) → other ≢ fd → entry k' other ≡ entry k other)
  pub add_exists :
      (k : Watched) (fd : ℕ) (e old : EpollEvent)
      → entry k fd ≡ some old
      → epoll_ctl k epoll_ctl_add fd e ≡ failed true
  pub mod_done :
      (k : Watched) (fd : ℕ) (e : EpollEvent) (k' : Watched)
      → epoll_ctl k epoll_ctl_mod fd e ≡ done k'
      → (entry k' fd ≡ some e) × ((other : ℕ) → other ≢ fd → entry k' other ≡ entry k other)
  pub mod_present :
      (k : Watched) (fd : ℕ) (e old : EpollEvent)
      → entry k fd ≡ some old
      → (k' : Watched) × (epoll_ctl k epoll_ctl_mod fd e ≡ done k')
  pub del_done :
      (k : Watched) (fd : ℕ) (e : EpollEvent) (k' : Watched)
      → epoll_ctl k epoll_ctl_del fd e ≡ done k'
      → (entry k' fd ≡ none) × ((other : ℕ) → other ≢ fd → entry k' other ≡ entry k other)
  pub del_failed :
      (k : Watched) (fd : ℕ) (e : EpollEvent) (exists : Bool)
      → epoll_ctl k epoll_ctl_del fd e ≡ failed exists
      → entry k fd ≡ none
  pub add_enables :
      (k : Watched) (fd : ℕ) (e : EpollEvent) (k' : Watched)
      → epoll_ctl k epoll_ctl_add fd e ≡ done k'
      → enabled k' fd ≡ true
  pub mod_enables :
      (k : Watched) (fd : ℕ) (e : EpollEvent) (k' : Watched)
      → epoll_ctl k epoll_ctl_mod fd e ≡ done k'
      → enabled k' fd ≡ true
  pub ctl_others :
      (k : Watched) (op : CtlOp) (fd : ℕ) (e : EpollEvent) (k' : Watched) (other : ℕ)
      → epoll_ctl k op fd e ≡ done k'
      → other ≢ fd
      → enabled k' other ≡ enabled k other
  pub wait_fits :
      (k : Watched) (max_events timeout : ℕ) (list : List EpollEvent) (k' : Watched)
      → epoll_wait k max_events timeout ≡ some (list, k')
      → length list ≤ max_events
  pub wait_entries :
      (k : Watched) (max_events timeout : ℕ) (list : List EpollEvent) (k' : Watched) (fd : ℕ)
      → epoll_wait k max_events timeout ≡ some (list, k')
      → entry k' fd ≡ entry k fd
  pub wait_reports :
      (k : Watched) (max_events timeout : ℕ) (list : List EpollEvent) (k' : Watched)
      (ev : EpollEvent)
      → epoll_wait k max_events timeout ≡ some (list, k')
      → Memᴰ ev list
      → (fd : ℕ) × (e : EpollEvent) × (entry k fd ≡ some e)
        × (ev.data_ptr ≡ e.data_ptr)
        × (enabled k fd ≡ true)
        × (bit_and e.events epolloneshot ≡ epolloneshot → enabled k' fd ≡ false)
  pub wait_keeps :
      (k : Watched) (max_events timeout : ℕ) (list : List EpollEvent) (k' : Watched) (fd : ℕ)
      → epoll_wait k max_events timeout ≡ some (list, k')
      → (enabled k' fd ≡ enabled k fd)
        ⊎ ((ev : EpollEvent) × (e : EpollEvent) × Memᴰ ev list
            × (entry k fd ≡ some e)
            × (ev.data_ptr ≡ e.data_ptr)
            × (enabled k fd ≡ true)
            × (enabled k' fd ≡ false))

-- `io_watcher_create` over whether `malloc` succeeds and the descriptor of `epoll_create1`; `none`
-- calls `server_shutdown`, which does not return.
unfoldable pub io_watcher_create : Bool → Option ℕ → Option ℕ
io_watcher_create allocated epoll_fd = if allocated then epoll_fd else none

-- What is registered: one event of readability.
abbrev pub oneshot_event : ℕ → EpollEvent
oneshot_event userdata = record { events = bit_or epollin epolloneshot; data_ptr = userdata }

module _ (kernel : Epoll) where
  -- The inner call of `io_watcher_add`, for a descriptor that is there already.
  unfoldable pub rearm : kernel.Watched → ℕ → ℕ → Option kernel.Watched
  rearm k fd userdata = elim (kernel.epoll_ctl k epoll_ctl_mod fd (oneshot_event userdata)) [
    | done k' ↦ some k'
    | failed _ ↦ none
  ]

  -- `io_watcher_add`; `none` is -1.
  unfoldable pub io_watcher_add : kernel.Watched → ℕ → ℕ → Option kernel.Watched
  io_watcher_add k fd userdata =
      elim (kernel.epoll_ctl k epoll_ctl_add fd (oneshot_event userdata)) [
        | done k' ↦ some k'
        | failed exists ↦ if exists then rearm k fd userdata else none
      ]

  -- `io_watcher_remove`; `none` is -1. The event that the call passes is NULL.
  unfoldable pub io_watcher_remove : kernel.Watched → ℕ → EpollEvent → Option kernel.Watched
  io_watcher_remove k fd ignored = elim (kernel.epoll_ctl k epoll_ctl_del fd ignored) [
    | done k' ↦ some k'
    | failed _ ↦ none
  ]

  -- The body of the loop of `io_watcher_wait`.
  unfoldable pub io_event : EpollEvent → IoEvent
  io_event e = record {
    userdata = e.data_ptr;
    is_error = not (bit_and e.events (bit_or epollerr epollhup) == 0);
  }

  -- `io_watcher_wait`; `none` is -1.
  unfoldable pub io_watcher_wait : kernel.Watched → ℕ → ℕ → Option (List IoEvent × kernel.Watched)
  io_watcher_wait k max_events timeout_ms = elim (kernel.epoll_wait k max_events timeout_ms) [
    | none ↦ none
    | some r ↦ some (map io_event r.0, r.1)
  ]
