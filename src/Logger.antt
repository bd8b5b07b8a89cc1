-- ===== src/Logger.antt =====
-- The ring of log entries in src/logger.c: `log_write`, by any thread, and the rounds of
-- `logger_thread`, between which the mutex of the ring is released.
pub mod Access
pub mod Mask
pub mod Pending
pub mod Batch
pub mod Drained
pub mod Spins
use celeritas.Prelude.{
  ℕ, zero, suc, ◌+◌, ◌-◌, Bool, true, false, not, ◌&&◌, Option, none, some, List, [], ◌∷◌, Bytes,
  bit_and, ◌==◌, if◌then◌else◌, length, take, set, get_elem?,
}
use celeritas.Types.{LogTarget}

-- LOG_LINE_MAX and BATCH_SIZE
abbrev pub log_line_max : ℕ
log_line_max = 2048

abbrev pub batch_size : ℕ
batch_size = 32

-- `log_entry_t`; `line` is the string in the array.
pub record LogEntry : Type 0 where
  pub target : LogTarget
  pub len : ℕ
  pub line : Bytes

-- `log_ring_t`, with the size and the shutdown flag of its `logger_t`.
pub record LogRing : Type 0 where
  pub entries : List LogEntry
  pub ring_size : ℕ
  pub head : ℕ
  pub tail : ℕ
  pub shutdown : Bool

-- The ring that `logger_init` makes in the memory it is given.
unfoldable pub logger_init : List LogEntry → ℕ → LogRing
logger_init memory log_buf_size = record {
  entries = memory;
  ring_size = log_buf_size;
  head = 0;
  tail = 0;
  shutdown = false;
}

-- `vsnprintf` of the text into the entry: the line is cut to its array, the length is not.
unfoldable pub format_entry : LogTarget → Bytes → LogEntry
format_entry target text = record {
  target = target;
  len = length text;
  line = take (log_line_max - 1) text;
}

-- Where a call of `log_write` stands when it gives up the mutex: it has stored its entry, it has
-- dropped it, or it waits for `not_full` with the next tail it has worked out.
pub data Wrote : Type 0 where
  stored : LogRing → Wrote
  dropped : Wrote
  waits : ℕ → Wrote

-- `(i + 1) & (ring_size - 1)`
unfoldable pub next_slot : LogRing → ℕ → ℕ
next_slot ring i = bit_and (i + 1) (ring.ring_size - 1)

-- The last lines of `log_write`.
unfoldable pub store_entry : LogRing → LogEntry → ℕ → LogRing
store_entry ring entry next_tail = record ring {
  entries = set ring.entries ring.tail entry;
  tail = next_tail;
}

-- `log_write` after a wait: the test of the loop once more, with the next tail from before it.
unfoldable pub log_write_awake : LogRing → LogEntry → ℕ → Wrote
log_write_awake ring entry next_tail =
    if next_tail == ring.head && not ring.shutdown
    then Wrote.waits next_tail
    else if ring.shutdown
    then Wrote.dropped
    else Wrote.stored (store_entry ring entry next_tail)

unfoldable pub is_access : LogTarget → Bool
is_access LogTarget.log_target_access = true
is_access _ = false

-- `log_write` from the lock on.
unfoldable pub log_write : LogRing → LogEntry → Wrote
log_write ring entry =
    let next_tail = next_slot ring ring.tail in
    if next_tail == ring.head
    then (if is_access entry.target then Wrote.dropped else log_write_awake ring entry next_tail)
    else Wrote.stored (store_entry ring entry next_tail)

-- The loop of `logger_thread` that copies up to `left` entries out. The slots it reads are in the
-- ring; `none` in the list would be one that is not.
unfoldable pub take_batch : ℕ → LogRing → List (Option LogEntry) × LogRing
take_batch zero ring = ([], ring)
take_batch (suc left) ring =
    let (batch, later) = take_batch left (record ring { head = next_slot ring ring.head }) in
    if ring.head == ring.tail then ([], ring) else (get_elem? ring.entries ring.head ∷ batch, later)

-- A round of `logger_thread` under the mutex: it sleeps, it ends, or it has a batch.
pub data Round : Type 0 where
  sleeps : Round
  ends : Round
  batched : List (Option LogEntry) → LogRing → Round

unfoldable pub logger_round : LogRing → Round
logger_round ring =
    let (batch, later) = take_batch batch_size ring in
    if ring.tail == ring.head
    then (if ring.shutdown then Round.ends else Round.sleeps)
    else Round.batched batch later

-- An `iovec`: the memory and the number of bytes to write of it.
pub record Iovec : Type 0 where
  pub iov_base : Bytes
  pub iov_len : ℕ

-- The loop that sorts the batch: the access log's lines and the event log's.
unfoldable pub sort_batch : List LogEntry → List Iovec × List Iovec
sort_batch [] = ([], [])
sort_batch (e ∷ es) =
    let (iov_access, iov_event) = sort_batch es in
    let iov : Iovec = record { iov_base = e.line; iov_len = e.len } in
    if is_access e.target then (iov ∷ iov_access, iov_event) else (iov_access, iov ∷ iov_event)

-- The write of the event log, behind what was given to the access log. The flag is whether `l_warn` is
-- called for a failure.
unfoldable pub write_events : Bool → List Iovec → List Iovec → (List Iovec × List Iovec) × Bool
write_events event_ok iov_access [] = ((iov_access, []), false)
write_events event_ok iov_access (e ∷ es) = ((iov_access, e ∷ es), not event_ok)

-- What a round gives to `writev`, for the access log and for the event log, and whether it warns of a
-- failed write. Where the first write fails, the `continue` passes over the second.
unfoldable pub write_batch : Bool → Bool → List LogEntry → (List Iovec × List Iovec) × Bool
write_batch access_ok event_ok batch =
    let (iov_access, iov_event) = sort_batch batch in
    elim iov_access [
      | [] ↦ write_events event_ok [] iov_event
      | i ∷ is ↦
          if access_ok then write_events event_ok (i ∷ is) iov_event else ((i ∷ is, []), true)
    ]

-- The call of `l_warn`, by the logger thread itself: `none` would wait for room that only this thread
-- makes.
unfoldable pub warn : Bool → LogRing → LogEntry → Option LogRing
warn false ring entry = some ring
warn true ring entry = elim (log_write ring entry) [
  | Wrote.stored later ↦ some later
  | Wrote.dropped ↦ some ring
  | Wrote.waits next_tail ↦ none
]

-- `logger_shutdown`, up to the wait for the thread.
unfoldable pub logger_shutdown : LogRing → LogRing
logger_shutdown ring = record ring { shutdown = true }
