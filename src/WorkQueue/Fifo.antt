-- ===== src/WorkQueue/Fifo.antt =====
-- A valid queue behaves as the list of the connections in it, oldest first.
use celeritas.Prelude.{
  ◌⊎◌, ℕ, ◌+◌, ◌-◌, ◌%◌, ◌≤◌, ◌<◌, ◌≡◌, refl, false, none, some, List, [], ◌∷◌, ◌++◌, length, set,
  ◌==◌, if◌then◌else◌, arith, ap, Bool-cases, inl, inr, length-set, length-append,
}
use celeritas.Types.{Conn}
use celeritas.WorkQueue.{
  WorkQueue, queue_init, queue_push, queue_pop, queue_trypop, waits, at_shutdown, is_empty, popped,
  take_head,
}
use celeritas.Slots.{slot_after, Holds, succ_slot-lt, Holds-set, pushed_tail, popped_tail}

-- The representation: the queue holds the connections `cs`, oldest first.
pub record Represents (q : WorkQueue) (cs : List Conn) : Type 0 where
  pub storage : q.capacity ≤ length q.buf
  pub head_in : q.head < q.capacity
  pub tail_is : q.tail ≡ slot_after q.capacity q.head q.count
  pub count_is : q.count ≡ length cs
  pub count_le : q.count ≤ q.capacity
  pub holds : Holds q.buf q.capacity q.head cs

-- On a queue that holds `cs`, `queue_push` waits exactly when `cs` has as many connections as the
-- queue has slots; else it puts the connection behind them, and leaves the capacity and the shutdown
-- flag as they are.
pub queue_push-Represents :
    (q : WorkQueue) (cs : List Conn) (c : Conn)
    → Represents q cs
    → ((length cs ≡ q.capacity) × (queue_push q c ≡ none))
      ⊎ ((length cs < q.capacity)
          × ((q' : WorkQueue) × (queue_push q c ≡ some q')
              × Represents q' (cs ++ c ∷ [])
              × (q'.capacity ≡ q.capacity)
              × (q'.shutting_down ≡ q.shutting_down)))
unfolding queue_push
queue_push-Represents q cs c r = elim (Bool-cases (q.count == q.capacity)) [
  | inl full ↦ inl (ground (arith, r.count_is), rw (full, queue_push) refl)
  | inr room ↦
      let less : length cs < q.capacity = ground (arith, r.count_is, r.count_le) in
      inr (
        less,
        (
          record q {
            buf = set q.buf q.tail c;
            tail = (q.tail + 1) % q.capacity;
            count = q.count + 1;
          },
          rw (room, queue_push) refl,
          record {
            storage = omega (arith, length-set q.buf q.tail c, r.storage);
            head_in = r.head_in;
            tail_is = pushed_tail q.capacity q.head q.count q.tail r.tail_is;
            count_is = omega (arith, length-append cs (c ∷ []), r.count_is);
            count_le = omega (arith, less, r.count_is);
            holds =
                rw (r.tail_is, r.count_is)
                  (Holds-set q.buf q.capacity q.head cs c r.storage r.head_in less r.holds);
          },
          refl,
          refl,
        ),
      )
]

-- The oldest connection is read, and the rest stays.
take_head-Represents :
    (q : WorkQueue) (c : Conn) (cs : List Conn)
    → Represents q (c ∷ cs)
    → (q' : WorkQueue) × (take_head q ≡ popped (some c) q')
      × Represents q' cs
      × (q'.capacity ≡ q.capacity)
      × (q'.shutting_down ≡ q.shutting_down)
unfolding take_head
take_head-Represents q c cs r = (
  record q { head = (q.head + 1) % q.capacity; count = q.count - 1 },
  ap (λ o. popped o (record q { head = (q.head + 1) % q.capacity; count = q.count - 1 })) r.holds.0,
  record {
    storage = r.storage;
    head_in = succ_slot-lt q.capacity q.head r.head_in;
    tail_is = popped_tail q.capacity q.head q.count q.tail (omega (arith, r.count_is)) r.tail_is;
    count_is = omega (arith, r.count_is);
    count_le = omega (arith, r.count_le);
    holds = r.holds.1;
  },
  refl,
  refl,
)

-- A queue that holds nothing gives nothing: `queue_pop` waits, or returns -1 at shutdown, and
-- `queue_trypop` returns 1, or -1 at shutdown.
pub queue_pop-nil :
    (q : WorkQueue)
    → Represents q []
    → (queue_pop q ≡ (if q.shutting_down then at_shutdown else waits))
      × (queue_trypop q ≡ (if q.shutting_down then at_shutdown else is_empty))
unfolding queue_pop queue_trypop
queue_pop-nil q r = (ground (arith, r.count_is), ground (arith, r.count_is))

-- On a queue that holds `c` and then `cs`, at shutdown too, both pops read `c`, and leave a queue of
-- the same capacity and shutdown flag that holds `cs`.
pub queue_pop-cons :
    (q : WorkQueue) (c : Conn) (cs : List Conn)
    → Represents q (c ∷ cs)
    → (q' : WorkQueue) × (queue_pop q ≡ popped (some c) q')
      × (queue_trypop q ≡ popped (some c) q')
      × Represents q' cs
      × (q'.capacity ≡ q.capacity)
      × (q'.shutting_down ≡ q.shutting_down)
unfolding queue_pop queue_trypop
queue_pop-cons q c cs r =
    let (q', e, rest, k, s) = take_head-Represents q c cs r in
    (q', ground (arith, r.count_is), ground (arith, r.count_is), rest, k, s)

-- A new queue over storage for its capacity is empty.
pub queue_init-Represents :
    (storage : List Conn) (capacity : ℕ)
    → 0 < capacity
    → capacity ≤ length storage
    → (q : WorkQueue) × (queue_init (some storage) capacity ≡ some q) × Represents q []
unfolding queue_init
queue_init-Represents storage capacity pos fits = (
  record {
    buf = storage;
    capacity = capacity;
    head = 0;
    tail = 0;
    count = 0;
    shutting_down = false;
  },
  refl,
  record {
    storage = fits;
    head_in = pos;
    tail_is = refl;
    count_is = refl;
    count_le = omega arith;
    holds = tt;
  },
)
