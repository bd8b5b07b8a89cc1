-- ===== src/Logger/Batch.antt =====
-- What a round of `logger_thread` takes out of the ring, and to which file each line goes.
use celeritas.Prelude.{
  ℕ, zero, suc, true, false, some, List, [], ◌∷◌, map, ◌==◌, length, take, drop, ◌≡◌, refl, sym,
  ap₂, subst, arith, inl, inr, Bool-cases, ==_refl,
}
use celeritas.Slots.{succ_slot, succ_slot-lt, slot_after-ne}
use celeritas.Logger.{LogEntry, LogRing, next_slot, take_batch, Round, logger_round, batch_size}
use celeritas.Logger.Pending.{Pending, next_slot-succ_slot}

-- The ring whose head has moved on by one.
abbrev popped_head : LogRing → LogRing
popped_head ring = record ring { head = next_slot ring ring.head }

popped_head-Pending :
    (ring : LogRing) (k : ℕ) (x : LogEntry) (xs : List LogEntry)
    → Pending ring k (x ∷ xs)
    → Pending (popped_head ring) k xs
popped_head-Pending ring k x xs p =
    let e : next_slot ring ring.head ≡ succ_slot ring.ring_size ring.head =
      next_slot-succ_slot ring k (x ∷ xs) p ring.head p.head_in in
    record {
      size_is = p.size_is;
      storage = p.storage;
      head_in = rw e (succ_slot-lt ring.ring_size ring.head p.head_in);
      tail_is = rw e p.tail_is;
      room = omega (arith, p.room);
      holds = rw e p.holds.1;
    }

pub empty-tail : (ring : LogRing) (k : ℕ) → Pending ring k [] → (ring.head == ring.tail) ≡ true
empty-tail ring k p = rw p.tail_is (==_refl ring.head)

pub filled-tail :
    (ring : LogRing) (k : ℕ) (x : LogEntry) (xs : List LogEntry)
    → Pending ring k (x ∷ xs)
    → (ring.head == ring.tail) ≡ false
filled-tail ring k x xs p =
    let ne = slot_after-ne ring.ring_size (length xs) ring.head p.head_in p.room in
    ground (arith, p.tail_is, ne)

pub take_batch-Pending :
    (left : ℕ) (ring : LogRing) (k : ℕ) (xs : List LogEntry)
    → Pending ring k xs
    → ((take_batch left ring).0 ≡ map (λ x. some x) (take left xs))
      × Pending (take_batch left ring).1 k (drop left xs)
unfolding take_batch
take_batch-Pending zero ring k xs p = (refl, p)
take_batch-Pending (suc left) ring k [] p = rw (empty-tail ring k p) (refl, p)
take_batch-Pending (suc left) ring k (x ∷ xs) p =
    let r = take_batch-Pending left (popped_head ring) k xs (popped_head-Pending ring k x xs p) in
    rw (filled-tail ring k x xs p) (ap₂ (λ a b. a ∷ b) p.holds.0 r.0, r.1)

-- What a round promises on a ring that holds `xs`: with nothing to write it sleeps, or ends at
-- shutdown; else it takes out the oldest entries, `batch_size` at most, and leaves the others.
abbrev pub TakesOldest : LogRing → ℕ → List LogEntry → Round → Type 0
TakesOldest ring k xs Round.sleeps = (xs ≡ []) × (ring.shutdown ≡ false)
TakesOldest ring k xs Round.ends = (xs ≡ []) × (ring.shutdown ≡ true)
TakesOldest ring k xs (Round.batched batch later) =
    (batch ≡ map (λ x. some x) (take batch_size xs)) × Pending later k (drop batch_size xs)

module _ (ring : LogRing) (empty : (ring.tail == ring.head) ≡ true) where
  pub logger_round-ends : ring.shutdown ≡ true → logger_round ring ≡ Round.ends
  unfolding logger_round
  logger_round-ends s = rw (empty, s) refl

  logger_round-sleeps : ring.shutdown ≡ false → logger_round ring ≡ Round.sleeps
  unfolding logger_round
  logger_round-sleeps s = rw (empty, s) refl

-- In a ring of a power of two of slots that holds the entries `xs`, a round of the logger thread
-- does what `TakesOldest` says; so it ends only when nothing is left to write.
pub logger_round-TakesOldest :
    (ring : LogRing) (k : ℕ) (xs : List LogEntry)
    → Pending ring k xs
    → TakesOldest ring k xs (logger_round ring)
unfolding logger_round
logger_round-TakesOldest ring k [] p =
    let e : (ring.tail == ring.head) ≡ true = ground (arith, empty-tail ring k p) in
    elim (Bool-cases ring.shutdown) [
      | inl s ↦ subst (TakesOldest ring k []) (sym (logger_round-ends ring e s)) (refl, s)
      | inr s ↦ subst (TakesOldest ring k []) (sym (logger_round-sleeps ring e s)) (refl, s)
    ]
logger_round-TakesOldest ring k (x ∷ xs) p =
    let e : (ring.tail == ring.head) ≡ false = ground (arith, filled-tail ring k x xs p) in
    rw (e, logger_round) (take_batch-Pending batch_size ring k (x ∷ xs) p)
