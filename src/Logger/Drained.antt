-- ===== src/Logger/Drained.antt =====
-- The loop of `logger_thread` in src/logger.c, and what it does at shutdown while its writes succeed.
use celeritas.Prelude.{
  ℕ, zero, suc, ◌+◌, ◌-◌, ◌≡◌, ◌<◌, refl, sym, ap, ap₂, subst, ◌∙◌, Bool, true, false, Option, none,
  some, List, [], ◌∷◌, ◌++◌, map, length, take, drop, length-drop, take-append-drop, ◌==◌, arith,
  inl, inr, Bool-cases, if◌then◌else◌, Bytes,
}
use celeritas.Logger.{
  LogEntry, LogRing, next_slot, take_batch, Round, logger_round, batch_size, Iovec, is_access,
  sort_batch, write_events, write_batch, warn, format_entry,
}
use celeritas.Logger.Pending.{Pending}
use celeritas.Logger.Batch.{empty-tail, filled-tail, take_batch-Pending, logger_round-ends}
use celeritas.Types.{log_target_event}
use mathlib.Core.Path.{Path}

-- The entries of a batch; a slot out of the ring would give none.
unfoldable pub entries_of : List (Option LogEntry) → List LogEntry
entries_of [] = []
entries_of (none ∷ batch) = entries_of batch
entries_of (some e ∷ batch) = e ∷ entries_of batch

abbrev pub Lines : Type 0
Lines = List Iovec × List Iovec

abbrev pub both : Lines → Lines → Lines
both a b = (a.0 ++ b.0, a.1 ++ b.1)

-- What the system answers in each round: whether the write of the access log and that of the event log
-- succeed; and the text of a warning, with its date.
pub record LogAnswers : Type 0 where
  pub access_ok : ℕ → Bool
  pub event_ok : ℕ → Bool
  pub warning : ℕ → Bytes

-- A round behind its writes: the warning of a failed one, and the rounds that follow.
unfoldable pub behind_writes :
    (LogRing → Option Lines) → LogRing → LogEntry → Lines × Bool → Option Lines
behind_writes go_on later entry (lines, failed) = elim (warn failed later entry) [
  | none ↦ none
  | some next ↦ elim (go_on next) [ none ↦ none | some rest ↦ some (both lines rest) ]
]

-- `logger_thread` from round `n` on, on fuel, while no other thread writes to the ring: all that it
-- gives to `writev` for the access log and for the event log, in order. `none` means that it sleeps,
-- waits for itself, or that the fuel ran out.
unfoldable pub logger_thread : LogAnswers → ℕ → ℕ → LogRing → Option Lines
logger_thread a n zero ring = none
logger_thread a n (suc fuel) ring =
    let go_on : LogRing → Option Lines = λ later. logger_thread a (n + 1) fuel later in
    elim (logger_round ring) [
      | Round.sleeps ↦ none
      | Round.ends ↦ some ([], [])
      | Round.batched batch later ↦
          behind_writes go_on later (format_entry log_target_event (a.warning n))
            (write_batch (a.access_ok n) (a.event_ok n) (entries_of batch))
    ]

entries_of-map : (es : List LogEntry) → entries_of (map (λ x. some x) es) ≡ es
unfolding entries_of
entries_of-map [] = refl
entries_of-map (e ∷ es) = ap (λ xs. e ∷ xs) (entries_of-map es)

-- A line goes to one of the two files.
abbrev put : LogEntry → Bool → Lines → Lines
put e b l =
    let iov : Iovec = record { iov_base = e.line; iov_len = e.len } in
    if b then (iov ∷ l.0, l.1) else (l.0, iov ∷ l.1)

put-both :
    (e : LogEntry) (x y z : Lines) → z ≡ both x y → (b : Bool) → put e b z ≡ both (put e b x) y
put-both e x y z h true = ap (put e true) h
put-both e x y z h false = ap (put e false) h

sort_batch-append :
    (xs ys : List LogEntry) → sort_batch (xs ++ ys) ≡ both (sort_batch xs) (sort_batch ys)
unfolding sort_batch
sort_batch-append [] ys = refl
sort_batch-append (e ∷ xs) ys =
    put-both e (sort_batch xs) (sort_batch ys) (sort_batch (xs ++ ys)) (sort_batch-append xs ys)
      (is_access e.target)

write_events_ok : (acc es : List Iovec) → write_events true acc es ≡ ((acc, es), false)
unfolding write_events
write_events_ok acc [] = refl
write_events_ok acc (e ∷ es) = refl

write_batch_ok : (batch : List LogEntry) → write_batch true true batch ≡ (sort_batch batch, false)
unfolding write_batch
write_batch_ok batch = by_access (sort_batch batch).0 (sort_batch batch).1
  where
    by_access :
        (iovs es : List Iovec)
        → Path
            (Lines × Bool)
            (elim iovs [
              | [] ↦ write_events true [] es
              | i ∷ is ↦ if true then write_events true (i ∷ is) es else ((i ∷ is, []), true)
            ])
            ((iovs, es), false)
    by_access [] es = write_events_ok [] es
    by_access (i ∷ is) es = write_events_ok (i ∷ is) es

take_batch-shutdown :
    (left : ℕ) (ring : LogRing) → (take_batch left ring).1.shutdown ≡ ring.shutdown
unfolding take_batch
take_batch-shutdown zero ring = refl
take_batch-shutdown (suc left) ring = elim (Bool-cases (ring.head == ring.tail)) [
  | inl t ↦ rw t refl
  | inr t ↦ rw t (take_batch-shutdown left (record ring { head = next_slot ring ring.head }))
]

-- At a round with something to write.
pub logger_round-batched :
    (ring : LogRing) (k : ℕ) (x : LogEntry) (xs : List LogEntry)
    → Pending ring k (x ∷ xs)
    → (batch : List (Option LogEntry)) × (later : LogRing) × (logger_round ring
        ≡ Round.batched batch later)
      × (entries_of batch ≡ take batch_size (x ∷ xs))
      × Pending later k (drop batch_size (x ∷ xs))
      × (later.shutdown ≡ ring.shutdown)
unfolding logger_round
logger_round-batched ring k x xs p =
    let e : (ring.tail == ring.head) ≡ false = ground (arith, filled-tail ring k x xs p) in
    let (b, q) = take_batch-Pending batch_size ring k (x ∷ xs) p in
    (
      (take_batch batch_size ring).0,
      (take_batch batch_size ring).1,
      rw (e, logger_round) refl,
      ap entries_of b ∙ entries_of-map (take batch_size (x ∷ xs)),
      q,
      take_batch-shutdown batch_size ring,
    )

behind_writes-ok :
    (go_on : LogRing → Option Lines) (later : LogRing) (entry : LogEntry) (lines rest : Lines)
    → go_on later ≡ some rest
    → behind_writes go_on later entry (lines, false) ≡ some (both lines rest)
unfolding behind_writes warn
behind_writes-ok go_on later entry lines rest h = rw h refl

-- In a ring of a power of two of slots, at shutdown, with no further writer and while its writes
-- succeed, `logger_thread` ends within one round more than there are entries in the ring, and it has then
-- given every entry to `writev`, those for the access log and those for the event log each in the order
-- of the ring.
pub logger_thread-drains :
    (a : LogAnswers) (n fuel : ℕ) (ring : LogRing) (k : ℕ) (xs : List LogEntry)
    → ((i : ℕ) → a.access_ok i ≡ true)
    → ((i : ℕ) → a.event_ok i ≡ true)
    → Pending ring k xs
    → ring.shutdown ≡ true
    → length xs < fuel
    → logger_thread a n fuel ring ≡ some (sort_batch xs)
unfolding logger_thread sort_batch
logger_thread-drains a n zero ring k xs ok₁ ok₂ p s f = absurd (omega arith)
logger_thread-drains a n (suc fuel) ring k [] ok₁ ok₂ p s f =
    let t : (ring.tail == ring.head) ≡ true = ground (arith, empty-tail ring k p) in
    rw (logger_round-ends ring t s, logger_thread) refl
logger_thread-drains a n (suc fuel) ring k (x ∷ xs) ok₁ ok₂ p s f =
    let now = take batch_size (x ∷ xs) in
    let rest = drop batch_size (x ∷ xs) in
    let l : length rest ≡ length (x ∷ xs) - batch_size = length-drop batch_size (x ∷ xs) in
    let (batch, later, e, b, q, s') = logger_round-batched ring k x xs p in
    let h = logger_thread-drains a (n + 1) fuel later k rest ok₁ ok₂ q (s' ∙ s) (omega arith) in
    let entry = format_entry log_target_event (a.warning n) in
    let go_on : LogRing → Option Lines = λ next. logger_thread a (n + 1) fuel next in
    let w : write_batch (a.access_ok n) (a.event_ok n) (entries_of batch)
        ≡ (sort_batch now, false) =
      ap₂ (λ u v. write_batch u v (entries_of batch)) (ok₁ n) (ok₂ n)
      ∙ ap (write_batch true true) b
      ∙ write_batch_ok now in
    rw (e, logger_thread)
      (subst (λ r. behind_writes go_on later entry r ≡ some (sort_batch (x ∷ xs))) (sym w)
        (behind_writes-ok go_on later entry (sort_batch now) (sort_batch rest) h
          ∙ ap (λ l. some l)
              (sym (sort_batch-append now rest)
                ∙ ap sort_batch (take-append-drop batch_size (x ∷ xs)))))
