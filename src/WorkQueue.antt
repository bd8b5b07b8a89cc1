-- ===== src/WorkQueue.antt =====
-- The queues of src/threadpool.c (`work_queue_t` of src/threadpool.h). Each function runs under the
-- mutex of its queue from lock to unlock, so it is one atomic step; a call that waits on a condition
-- variable has released the mutex and changed nothing, and tries again later.
pub mod Fifo
pub mod Interleaving
pub mod Stepped
use celeritas.Prelude.{
  ℕ, ◌+◌, ◌-◌, ◌%◌, Bool, true, false, not, ◌&&◌, Option, none, some, List, ◌==◌, if◌then◌else◌,
  get_elem?, set,
}
use celeritas.Types.{Conn}

-- `work_queue_t`, without the mutex and the condition variables.
pub record WorkQueue : Type 0 where
  pub buf : List Conn
  pub capacity : ℕ
  pub head : ℕ
  pub tail : ℕ
  pub count : ℕ
  pub shutting_down : Bool

-- `queue_init` over the memory that `malloc` gives; `none` is its failure.
unfoldable pub queue_init : Option (List Conn) → ℕ → Option WorkQueue
queue_init none capacity = none
queue_init (some storage) capacity = some (record {
  buf = storage;
  capacity = capacity;
  head = 0;
  tail = 0;
  count = 0;
  shutting_down = false;
})

-- `queue_push`; `none` waits for `not_full`. A `set` out of range changes nothing; the invariant
-- rules it out.
unfoldable pub queue_push : WorkQueue → Conn → Option WorkQueue
queue_push q c =
    if q.count == q.capacity
    then none
    else some (record q {
      buf = set q.buf q.tail c;
      tail = (q.tail + 1) % q.capacity;
      count = q.count + 1;
    })

-- What a pop comes to: it waits for `not_empty`, it returns -1 at shutdown, it returns 1 for an
-- empty queue, or it returns 0 with the slot that it read (`none` for one out of range).
pub data Popped : Type 0 where
  waits : Popped
  at_shutdown : Popped
  is_empty : Popped
  popped : Option Conn → WorkQueue → Popped

-- The oldest slot is read and given up.
unfoldable pub take_head : WorkQueue → Popped
take_head q =
    popped (get_elem? q.buf q.head)
      (record q { head = (q.head + 1) % q.capacity; count = q.count - 1 })

-- `queue_pop`
unfoldable pub queue_pop : WorkQueue → Popped
queue_pop q =
    if q.count == 0 && not q.shutting_down
    then waits
    else if q.shutting_down && q.count == 0
    then at_shutdown
    else take_head q

-- `queue_trypop`
unfoldable pub queue_trypop : WorkQueue → Popped
queue_trypop q =
    if q.count == 0 then (if q.shutting_down then at_shutdown else is_empty) else take_head q
