-- ===== src/Logger/Spins.antt =====
-- The loop of `logger_thread` in src/logger.c when the writes of the event log fail: each failure puts
-- a new entry into the ring.
use celeritas.Prelude.{
  ℕ, zero, suc, ◌+◌, ◌-◌, ◌≡◌, ◌<◌, ◌⊎◌, refl, sym, ◌∙◌, subst, Bool, true, false, none, some, List,
  [], ◌∷◌, ◌++◌, length, length-drop, take, drop, arith, inl, inr, Bool-cases, Option,
  if◌then◌else◌,
}
use celeritas.Types.{log_target_event}
use celeritas.Logger.{
  LogEntry, LogRing, Wrote, Round, logger_round, batch_size, Iovec, is_access, sort_batch,
  write_events, write_batch, warn, format_entry, log_write,
}
use celeritas.Logger.Pending.{Pending, WroteBehind, log_write-WroteBehind}
use celeritas.Logger.Drained.{
  LogAnswers, Lines, both, behind_writes, logger_thread, logger_round-batched, entries_of,
}

-- A list that ends with an entry of the event log.
abbrev EndsInEvent : List LogEntry → Type 0
EndsInEvent xs =
    (ys : List LogEntry) × (w : LogEntry) × (xs ≡ ys ++ w ∷ []) × (is_access w.target ≡ false)

-- A batch without lines for the event log leaves the last entry in the ring.
batch-cases :
    (ys : List LogEntry) (w : LogEntry) (n : ℕ)
    → is_access w.target ≡ false
    → (0 < length (sort_batch (take n (ys ++ w ∷ []))).1) ⊎ EndsInEvent (drop n (ys ++ w ∷ []))
unfolding sort_batch
batch-cases ys w zero h = inr (ys, w, refl, h)
batch-cases [] w (suc n) h = inl (rw h (omega arith))
batch-cases (y ∷ ys) w (suc n) h = elim (batch-cases ys w n h) [
  | inr r ↦ inr r
  | inl l ↦ elim (Bool-cases (is_access y.target)) [
    | inl t ↦ inl (rw t l)
    | inr t ↦ inl (rw t (omega arith))
  ]
]

write_events-fails : (acc es : List Iovec) → 0 < length es → (write_events false acc es).1 ≡ true
unfolding write_events
write_events-fails acc [] h = absurd (omega arith)
write_events-fails acc (e ∷ es) h = refl

-- A batch with lines for the event log is warned of: one of the two writes fails.
write_batch-fails :
    (access_ok : Bool) (batch : List LogEntry)
    → 0 < length (sort_batch batch).1
    → (write_batch access_ok false batch).1 ≡ true
unfolding write_batch
write_batch-fails access_ok batch = by_access access_ok (sort_batch batch).0 (sort_batch batch).1
  where
    by_access :
        (ok : Bool) (iovs es : List Iovec)
        → 0 < length es
        → (elim iovs as (λ x. Lines × Bool) [
          | [] ↦ write_events false [] es
          | i ∷ is ↦ if ok then write_events false (i ∷ is) es else ((i ∷ is, []), true)
        ]).1
          ≡ true
    by_access ok [] es h = write_events-fails [] es h
    by_access true (i ∷ is) es h = write_events-fails (i ∷ is) es h
    by_access false (i ∷ is) es h = refl

-- Behind the writes, the ring still ends in an entry of the event log.
abbrev Again : (LogRing → Option Lines) → ℕ → Type 0
Again go_on k =
    (ring : LogRing) (xs : List LogEntry) → Pending ring k xs → EndsInEvent xs → go_on ring ≡ none

warned-none :
    (go_on : LogRing → Option Lines) (k : ℕ) (later : LogRing) (xs : List LogEntry)
    (entry : LogEntry) (lines : Lines)
    → Again go_on k
    → Pending later k xs
    → length xs + 1 < later.ring_size
    → is_access entry.target ≡ false
    → behind_writes go_on later entry (lines, true) ≡ none
unfolding behind_writes warn
warned-none go_on k later xs entry lines again p room event =
    by_write (log_write later entry) (log_write-WroteBehind later k xs entry p)
  where
    by_write :
        (r : Wrote)
        → WroteBehind later k xs entry r
        → elim (elim r as (λ x. Option LogRing) [
          | Wrote.stored next ↦ some next
          | Wrote.dropped ↦ some later
          | Wrote.waits next_tail ↦ none
        ])
            as (λ x. Option Lines) [
              | none ↦ none
              | some next ↦ elim (go_on next) [ none ↦ none | some rest ↦ some (both lines rest) ]
            ]
          ≡ none
    by_write (Wrote.stored next) b =
        rw (again next (xs ++ entry ∷ []) b.1 (xs, entry, refl, event)) refl
    by_write Wrote.dropped b =
        let full : length xs + 1 ≡ later.ring_size = b.0 in absurd (omega arith)
    by_write (Wrote.waits next_tail) b = refl

quiet-none :
    (go_on : LogRing → Option Lines) (k : ℕ) (later : LogRing) (xs : List LogEntry)
    (entry : LogEntry) (lines : Lines)
    → Again go_on k
    → Pending later k xs
    → EndsInEvent xs
    → behind_writes go_on later entry (lines, false) ≡ none
unfolding behind_writes warn
quiet-none go_on k later xs entry lines again p h = rw (again later xs p h) refl

filled : (ys : List LogEntry) (w : LogEntry) → 0 < length (ys ++ w ∷ [])
filled [] w = omega arith
filled (y ∷ ys) w = omega arith

-- A round has made room.
freed :
    (ring later : LogRing) (k : ℕ) (xs : List LogEntry)
    → 0 < length xs
    → Pending ring k xs
    → Pending later k (drop batch_size xs)
    → length (drop batch_size xs) + 1 < later.ring_size
freed ring later k xs h p q =
    let d : length (drop batch_size xs) ≡ length xs - batch_size = length-drop batch_size xs in
    let same : later.ring_size ≡ ring.ring_size = q.size_is ∙ sym p.size_is in
    let room : length xs < ring.ring_size = p.room in omega arith

-- A round takes the oldest entries.
event_round :
    (ring : LogRing) (k : ℕ) (ys : List LogEntry) (w : LogEntry)
    → Pending ring k (ys ++ w ∷ [])
    → (batch : List (Option LogEntry)) × (later : LogRing) × (logger_round ring
        ≡ Round.batched batch later)
      × (entries_of batch ≡ take batch_size (ys ++ w ∷ []))
      × Pending later k (drop batch_size (ys ++ w ∷ []))
event_round ring k [] w p =
    let (batch, later, e, b, q, _) = logger_round-batched ring k w [] p in (batch, later, e, b, q)
event_round ring k (y ∷ ys) w p =
    let (batch, later, e, b, q, _) = logger_round-batched ring k y (ys ++ w ∷ []) p in
    (batch, later, e, b, q)

-- Behind a round over a ring that ends in an entry of the event log.
round-none :
    (go_on : LogRing → Option Lines) (k : ℕ) (later : LogRing) (ys : List LogEntry) (w : LogEntry)
    (access_ok : Bool) (batch : List LogEntry) (entry : LogEntry)
    → Again go_on k
    → is_access w.target ≡ false
    → is_access entry.target ≡ false
    → batch ≡ take batch_size (ys ++ w ∷ [])
    → Pending later k (drop batch_size (ys ++ w ∷ []))
    → length (drop batch_size (ys ++ w ∷ [])) + 1 < later.ring_size
    → behind_writes go_on later entry (write_batch access_ok false batch) ≡ none
round-none go_on k later ys w access_ok batch entry again event warns b p room =
    let rest = drop batch_size (ys ++ w ∷ []) in
    let r = write_batch access_ok false batch in
    let warned : r.1 ≡ true → behind_writes go_on later entry r ≡ none = λ t.
      subst (λ f. behind_writes go_on later entry (r.0, f) ≡ none) (sym t)
        (warned-none go_on k later rest entry r.0 again p room warns) in
    elim (batch-cases ys w batch_size event) [
      | inl l ↦
          warned (
            write_batch-fails access_ok batch
              (subst (λ es. 0 < length (sort_batch es).1) (sym b) l))
      | inr ends ↦ elim (Bool-cases r.1) [
        | inl t ↦ warned t
        | inr t ↦
            subst (λ f. behind_writes go_on later entry (r.0, f) ≡ none) (sym t)
              (quiet-none go_on k later rest entry r.0 again p ends)
      ]
    ]

-- In a ring of a power of two of slots whose last entry is for the event log, if no write of that log
-- succeeds, `logger_thread` does not end, with any fuel, not even at shutdown and without a further
-- writer: each failed write puts a warning of its own into the ring.
pub logger_thread-spins :
    (a : LogAnswers) (n fuel : ℕ) (ring : LogRing) (k : ℕ) (ys : List LogEntry) (w : LogEntry)
    → ((i : ℕ) → a.event_ok i ≡ false)
    → Pending ring k (ys ++ w ∷ [])
    → is_access w.target ≡ false
    → logger_thread a n fuel ring ≡ none
unfolding logger_thread is_access format_entry
logger_thread-spins a n zero ring k ys w bad p event = refl
logger_thread-spins a n (suc fuel) ring k ys w bad p event =
    let go_on : LogRing → Option Lines = λ next. logger_thread a (n + 1) fuel next in
    let again : Again go_on k = λ next xs q h.
      let (zs, v, same, e) = h in
      logger_thread-spins a (n + 1) fuel next k zs v bad (subst (Pending next k) same q) e in
    let entry = format_entry log_target_event (a.warning n) in
    let (batch, later, e, b, q) = event_round ring k ys w p in
    rw (e, logger_thread)
      (subst
        (λ ok.
          behind_writes go_on later entry (write_batch (a.access_ok n) ok (entries_of batch))
          ≡ none)
        (sym (bad n))
        (round-none go_on k later ys w (a.access_ok n) (entries_of batch) entry again event refl b q
          (freed ring later k (ys ++ w ∷ []) (filled ys w) p q)))
