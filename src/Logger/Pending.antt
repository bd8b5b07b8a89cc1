-- ===== src/Logger/Pending.antt =====
-- The ring of the log as the list of the entries that wait in it, oldest first.
use celeritas.Prelude.{
  ℕ, ◌+◌, ◌^◌, ◌≤◌, ◌<◌, true, false, List, [], ◌∷◌, ◌++◌, ◌==◌, length, set, ◌≡◌, ◌⊎◌, refl, sym,
  ap, subst, ◌∙◌, arith, inl, inr, Bool-cases, length-append, length-set, ltb,
}
use celeritas.Slots.{
  succ_slot, slot_after, Holds, slot_after_eq, slot_after-lt, Holds-set, pushed_tail,
}
use celeritas.Logger.{
  LogEntry, LogRing, Wrote, next_slot, store_entry, log_write_awake, is_access, log_write,
}
use celeritas.Logger.Mask.{bit_and-succ_slot}

-- The ring has `2 ^ k` slots in its memory, of which one stays free, and holds the entries `xs`.
pub record Pending (ring : LogRing) (k : ℕ) (xs : List LogEntry) : Type 0 where
  pub size_is : ring.ring_size ≡ 2 ^ k
  pub storage : ring.ring_size ≤ length ring.entries
  pub head_in : ring.head < ring.ring_size
  pub tail_is : ring.tail ≡ slot_after ring.ring_size ring.head (length xs)
  pub room : length xs < ring.ring_size
  pub holds : Holds ring.entries ring.ring_size ring.head xs

module _ (ring : LogRing) (k : ℕ) (xs : List LogEntry) (p : Pending ring k xs) where
  pub next_slot-succ_slot :
      (i : ℕ) → i < ring.ring_size → next_slot ring i ≡ succ_slot ring.ring_size i
  unfolding next_slot
  next_slot-succ_slot i h =
      let l : i < 2 ^ k = subst (λ n. i < n) p.size_is h in rw p.size_is (bit_and-succ_slot k i l)

  tail_in : ring.tail < ring.ring_size
  tail_in =
      rw p.tail_is
        (slot_after-lt ring.ring_size (length xs) ring.head p.head_in (omega (arith, p.room)))

  next_tail_is : next_slot ring ring.tail ≡ slot_after ring.ring_size ring.head (length xs + 1)
  next_tail_is =
      next_slot-succ_slot ring.tail tail_in
      ∙ pushed_tail ring.ring_size ring.head (length xs) ring.tail p.tail_is

  -- The next tail meets the head exactly at the last free slot.
  next_tail-full :
      (((next_slot ring ring.tail == ring.head) ≡ true) × (length xs + 1 ≡ ring.ring_size))
      ⊎ (((next_slot ring ring.tail == ring.head) ≡ false) × (length xs + 1 < ring.ring_size))
  next_tail-full =
      let e =
        slot_after_eq ring.ring_size (length xs + 1) ring.head p.head_in (omega (arith, p.room)) in
      elim (Bool-cases (ltb (length xs + 1) ring.ring_size)) [
        | inl t ↦ inr (ground (arith, t, next_tail_is, e, p.head_in))
        | inr t ↦ inl (ground (arith, t, next_tail_is, e, p.head_in, p.room))
      ]

-- The entry is stored behind the others where there is a free slot besides.
store_entry-Pending :
    (ring : LogRing) (k : ℕ) (xs : List LogEntry) (entry : LogEntry)
    → Pending ring k xs
    → length xs + 1 < ring.ring_size
    → Pending (store_entry ring entry (next_slot ring ring.tail)) k (xs ++ entry ∷ [])
unfolding store_entry
store_entry-Pending ring k xs entry p h = record {
  size_is = p.size_is;
  storage = omega (arith, p.storage, length-set ring.entries ring.tail entry);
  head_in = p.head_in;
  tail_is =
      next_tail_is ring k xs p
      ∙ ap (slot_after ring.ring_size ring.head) (sym (length-append xs (entry ∷ [])));
  room = omega (arith, h, length-append xs (entry ∷ []));
  holds =
      subst (λ t. Holds (set ring.entries t entry) ring.ring_size ring.head (xs ++ entry ∷ []))
        (sym p.tail_is)
        (Holds-set ring.entries ring.ring_size ring.head xs entry p.storage p.head_in p.room
          p.holds);
}

module _ (ring : LogRing) (entry : LogEntry) (next_tail : ℕ)
    (full : (next_tail == ring.head) ≡ true) where
  log_write_awake-dropped :
      ring.shutdown ≡ true → log_write_awake ring entry next_tail ≡ Wrote.dropped
  unfolding log_write_awake
  log_write_awake-dropped s = rw (full, s) refl

  log_write_awake-waits :
      ring.shutdown ≡ false → log_write_awake ring entry next_tail ≡ Wrote.waits next_tail
  unfolding log_write_awake
  log_write_awake-waits s = rw (full, s) refl

-- What `log_write` promises for its result, on a ring that holds `xs`: it stores the entry last
-- where a slot besides the free one is left; else it drops an entry of the access log, and waits with
-- one of the event log unless the logger shuts down.
abbrev pub WroteBehind : LogRing → ℕ → List LogEntry → LogEntry → Wrote → Type 0
WroteBehind ring k xs entry (Wrote.stored later) =
    (length xs + 1 < ring.ring_size) × Pending later k (xs ++ entry ∷ [])
WroteBehind ring k xs entry Wrote.dropped =
    (length xs + 1 ≡ ring.ring_size) × ((is_access entry.target ≡ true) ⊎ (ring.shutdown ≡ true))
WroteBehind ring k xs entry (Wrote.waits next_tail) =
    (length xs + 1 ≡ ring.ring_size)
    × (is_access entry.target ≡ false)
    × (ring.shutdown ≡ false)
    × (next_tail ≡ next_slot ring ring.tail)

-- In a ring of a power of two of slots that holds the entries `xs`, `log_write` of an entry does
-- what `WroteBehind` says, on every branch.
pub log_write-WroteBehind :
    (ring : LogRing) (k : ℕ) (xs : List LogEntry) (entry : LogEntry)
    → Pending ring k xs
    → WroteBehind ring k xs entry (log_write ring entry)
unfolding log_write
log_write-WroteBehind ring k xs entry p = elim (next_tail-full ring k xs p) [
  | inr (e, h) ↦ rw (e, log_write) (h, store_entry-Pending ring k xs entry p h)
  | inl (e, h) ↦ elim (Bool-cases (is_access entry.target)) [
    | inl a ↦ rw (e, a, log_write) (h, inl a)
    | inr a ↦ elim (Bool-cases ring.shutdown) [
      | inl s ↦
          rw (e, a, log_write_awake-dropped ring entry (next_slot ring ring.tail) e s, log_write)
            (h, inr s)
      | inr s ↦
          rw (e, a, log_write_awake-waits ring entry (next_slot ring ring.tail) e s, log_write)
            (h, a, s, refl)
    ]
  ]
]

Holds-prefix :
    (buf : List LogEntry) (size h : ℕ) (xs ys : List LogEntry)
    → Holds buf size h (xs ++ ys)
    → Holds buf size h xs
Holds-prefix buf size h [] ys p = tt
Holds-prefix buf size h (x ∷ xs) ys p = (p.0, Holds-prefix buf size (succ_slot size h) xs ys p.1)

-- A call of `log_write` that waited keeps the next tail of before. Where another call has meanwhile
-- stored its entry there, so that this is the tail now, and the ring is not empty, the call reports
-- its entry stored and yet the ring holds what it held: the entry is lost.
pub log_write_awake-loses :
    (ring : LogRing) (k : ℕ) (xs : List LogEntry) (entry : LogEntry)
    → Pending ring k xs
    → (ring.tail == ring.head) ≡ false
    → ring.shutdown ≡ false
    → (later : LogRing) × (log_write_awake ring entry ring.tail ≡ Wrote.stored later)
      × Pending later k xs
unfolding log_write_awake
log_write_awake-loses ring k xs entry p e s = (
  store_entry ring entry ring.tail,
  rw (e, s, log_write_awake) refl,
  unfold store_entry in
      record {
        size_is = p.size_is;
        storage = omega (arith, p.storage, length-set ring.entries ring.tail entry);
        head_in = p.head_in;
        tail_is = p.tail_is;
        room = p.room;
        holds =
            Holds-prefix (set ring.entries ring.tail entry) ring.ring_size ring.head xs (entry ∷ [])
              (subst
                (λ t. Holds (set ring.entries t entry) ring.ring_size ring.head (xs ++ entry ∷ []))
                (sym p.tail_is)
                (Holds-set ring.entries ring.ring_size ring.head xs entry p.storage p.head_in p.room
                  p.holds));
      },
)
