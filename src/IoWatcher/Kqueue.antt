-- ===== src/IoWatcher/Kqueue.antt =====
-- The watcher of src/io_watcher.c where the system has kqueue: the code without `__linux__`. The kernel
-- is a parameter, an interface with what kqueue(2) documents.
pub mod Once
use celeritas.Prelude.{
  ℕ, ◌*◌, ◌/◌, ◌%◌, ◌^◌, ◌≤◌, ◌≡◌, ◌≢◌, Bool, true, false, Option, none, some, List, map, length,
  ◌==◌, if◌then◌else◌, bit_and, bit_or, ◌⊎◌,
}
use celeritas.IoWatcher.{IoEvent}
use mathlib.Core.List.{Memᴰ}

pub data Filter : Type 0 where
  evfilt_read evfilt_other : Filter

-- `struct kevent`, without the fields that the code sets to 0.
pub record Kevent : Type 0 where
  pub ident : ℕ
  pub filter : Filter
  pub flags : ℕ
  pub udata : ℕ

abbrev pub ev_add : ℕ
ev_add = 1

abbrev pub ev_delete : ℕ
ev_delete = 2

abbrev pub ev_oneshot : ℕ
ev_oneshot = 16

abbrev pub ev_error : ℕ
ev_error = 2 ^ 14

-- The kernel's side: `knote` looks at its read filters, `change` is `kevent` with one change and no
-- room for events, where `none` is a failure, and `collect` is `kevent` with no change and a `timespec`.
-- A call of `change` that fails has changed nothing; a deletion fails for a filter that is not there.
pub record Kqueue : Type 1 where
  pub Queue : Type 0
  pub knote : Queue → ℕ → Option Kevent
  pub change : Queue → Kevent → Option Queue
  pub collect : Queue → ℕ → ℕ → ℕ → Option (List Kevent × Queue)
  pub add_done :
      (k : Queue) (e : Kevent) (k' : Queue)
      → e.filter ≡ evfilt_read
      → bit_and e.flags (bit_or ev_add ev_delete) ≡ ev_add
      → change k e ≡ some k'
      → (knote k' e.ident ≡ some e)
        × ((other : ℕ) → other ≢ e.ident → knote k' other ≡ knote k other)
  pub delete_done :
      (k : Queue) (e : Kevent) (k' : Queue)
      → e.filter ≡ evfilt_read
      → bit_and e.flags (bit_or ev_add ev_delete) ≡ ev_delete
      → change k e ≡ some k'
      → (knote k' e.ident ≡ none) × ((other : ℕ) → other ≢ e.ident → knote k' other ≡ knote k other)
  pub delete_failed :
      (k : Queue) (e : Kevent)
      → e.filter ≡ evfilt_read
      → bit_and e.flags (bit_or ev_add ev_delete) ≡ ev_delete
      → change k e ≡ none
      → knote k e.ident ≡ none
  pub collect_fits :
      (k : Queue) (max_events sec nsec : ℕ) (list : List Kevent) (k' : Queue)
      → collect k max_events sec nsec ≡ some (list, k')
      → length list ≤ max_events
  pub collect_reports :
      (k : Queue) (max_events sec nsec : ℕ) (list : List Kevent) (k' : Queue) (ev : Kevent)
      → collect k max_events sec nsec ≡ some (list, k')
      → Memᴰ ev list
      → (fd : ℕ) × (e : Kevent) × (knote k fd ≡ some e)
        × (ev.udata ≡ e.udata)
        × (bit_and e.flags ev_oneshot ≡ ev_oneshot → knote k' fd ≡ none)
  pub collect_keeps :
      (k : Queue) (max_events sec nsec : ℕ) (list : List Kevent) (k' : Queue) (fd : ℕ)
      → collect k max_events sec nsec ≡ some (list, k')
      → (knote k' fd ≡ knote k fd)
        ⊎ ((ev : Kevent) × (e : Kevent) × Memᴰ ev list
            × (knote k fd ≡ some e)
            × (ev.udata ≡ e.udata)
            × (knote k' fd ≡ none))

-- `io_watcher_create` over whether `malloc` succeeds and the descriptor of `kqueue`; `none` calls
-- `server_shutdown`, which does not return.
unfoldable pub io_watcher_create : Bool → Option ℕ → Option ℕ
io_watcher_create allocated kqueue_fd = if allocated then kqueue_fd else none

-- `EV_SET` of `io_watcher_add`
unfoldable pub add_event : ℕ → ℕ → Kevent
add_event fd userdata = record {
  ident = fd;
  filter = evfilt_read;
  flags = bit_or ev_add ev_oneshot;
  udata = userdata;
}

-- `EV_SET` of `io_watcher_remove`
unfoldable pub delete_event : ℕ → Kevent
delete_event fd = record { ident = fd; filter = evfilt_read; flags = ev_delete; udata = 0 }

-- The `timespec` of `io_watcher_wait`. The wait room calls it with a timeout that is not negative.
unfoldable pub timespec : ℕ → ℕ × ℕ
timespec timeout_ms = (timeout_ms / 1000, timeout_ms % 1000 * 1000000)

-- The body of the loop of `io_watcher_wait`.
unfoldable pub io_event : Kevent → IoEvent
io_event e =
    if bit_and e.flags ev_error == 0
    then record { userdata = e.udata; is_error = false }
    else record { userdata = e.udata; is_error = true }

module _ (kernel : Kqueue) where
  -- `io_watcher_add`; `none` is -1.
  unfoldable pub io_watcher_add : kernel.Queue → ℕ → ℕ → Option kernel.Queue
  io_watcher_add k fd userdata = elim (kernel.change k (add_event fd userdata)) [
    | none ↦ none
    | some k' ↦ some k'
  ]

  -- `io_watcher_remove`; `none` is -1.
  unfoldable pub io_watcher_remove : kernel.Queue → ℕ → Option kernel.Queue
  io_watcher_remove k fd = elim (kernel.change k (delete_event fd)) [
    | none ↦ none
    | some k' ↦ some k'
  ]

  -- `io_watcher_wait`; `none` is -1.
  unfoldable pub io_watcher_wait : kernel.Queue → ℕ → ℕ → Option (List IoEvent × kernel.Queue)
  io_watcher_wait k max_events timeout_ms =
      elim (kernel.collect k max_events (timespec timeout_ms).0 (timespec timeout_ms).1) [
        | none ↦ none
        | some r ↦ some (map io_event r.0, r.1)
      ]
