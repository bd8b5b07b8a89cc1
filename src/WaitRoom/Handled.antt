-- ===== src/WaitRoom/Handled.antt =====
-- What one round of the wait room does while the server runs.
use celeritas.Prelude.{
  Option, ℕ, suc, ◌+◌, ◌≡◌, ◌<◌, ◌≤◌, inl, inr, refl, sym, ap, ◌∙◌, Bool, true, false, none, some,
  List, [], ◌∷◌, ◌++◌, arith, All, Option-cases, subst, length, length-append, append-nil,
  append_assoc,
}
use celeritas.Types.{Conn}
use celeritas.IoWatcher.{IoEvent}
use celeritas.WorkQueue.{WorkQueue}
use celeritas.WorkQueue.Fifo.{Represents, queue_push-Represents}
use celeritas.ConnPool.{ConnPool, pool_remove_by_fd, pool_sweep_expired}
use celeritas.ConnPool.Bag.{contents, PoolInv, Removed, pool_remove_by_fd-Removed}
use celeritas.ConnPool.Sweep.{Swept, Live, pool_sweep_expired-Swept}
use celeritas.WaitRoom.{Room, place}
use celeritas.WaitRoom.Drain.{place_all, drain-place_all}
use celeritas.WaitRoom.Tally.{one_if, tally, tally-append, tally-Perm}
use celeritas.WaitRoom.Kept.{owned, place-Kept, tally-snoc}
use celeritas.WaitRoom.Tick.{Watch, Ticked, hand_back, handle_event, handle_events, sweep, tick}

-- Of a room and a work queue that holds `qs`, `later` is what is left when at most `n` connections,
-- `back`, went from the one to the other.
pub record Handled (w : Watch) (qs : List Conn) (n : ℕ) (later : Watch) : Type 0 where
  pub back : List Conn
  pub fits : length back ≤ n
  pub queued : Represents later.work_q (qs ++ back)
  pub same_capacity : later.work_q.capacity ≡ w.work_q.capacity
  pub pool_ok : PoolInv later.room.pool
  pub kept : (fd : ℕ) → owned fd later.room + tally fd back ≡ owned fd w.room

nothing-Handled :
    (w : Watch) (qs : List Conn) (n : ℕ)
    → Represents w.work_q qs
    → PoolInv w.room.pool
    → Handled w qs n w
nothing-Handled w qs n r h = record {
  back = [];
  fits = omega arith;
  queued = subst (Represents w.work_q) (sym (append-nil qs)) r;
  same_capacity = refl;
  pool_ok = h;
  kept = λ fd. omega arith;
}

-- What handling one event comes to: it waits only for a full work queue.
abbrev pub Handed : Watch → List Conn → Option Watch → Type 0
Handed w qs none = length qs ≡ w.work_q.capacity
Handed w qs (some later) = Handled w qs 1 later

-- For a connection taken from the pool.
hand_back-Handed :
    (w : Watch) (qs : List Conn) (is_error : Bool) (c : Conn) (later : ConnPool)
    → Represents w.work_q qs
    → PoolInv later
    → ((fd : ℕ) → tally fd (contents w.room.pool) ≡ one_if fd c + tally fd (contents later))
    → Handed w qs (hand_back w is_error c later)
unfolding hand_back
hand_back-Handed w qs true c later r h t = record {
  back = [];
  fits = omega arith;
  queued = subst (Represents w.work_q) (sym (append-nil qs)) r;
  same_capacity = refl;
  pool_ok = h;
  kept = λ fd. let s = tally-snoc fd w.room.closed c in let u = t fd in omega arith;
}
hand_back-Handed w qs false c later r h t = elim (queue_push-Represents w.work_q qs c r) [
  | inl (full, e) ↦ rw e full
  | inr (_, (q, e, r', k, _)) ↦ rw e (record {
    back = c ∷ [];
    fits = omega arith;
    queued = r';
    same_capacity = k;
    pool_ok = h;
    kept = λ fd. let u = t fd in omega arith;
  })
]

pub handle_event-Handed :
    (spare : Conn) (w : Watch) (qs : List Conn) (event : IoEvent)
    → Represents w.work_q qs
    → PoolInv w.room.pool
    → Handed w qs (handle_event spare w event)
unfolding handle_event
handle_event-Handed spare w qs event r h =
    let fd = event.userdata in
    elim (Option-cases (pool_remove_by_fd spare w.room.pool fd)) [
      | inl n ↦ rw (n, handle_event) (nothing-Handled w qs 1 r h)
      | inr ((c, later), s) ↦
          let (same, inv, p) =
            subst (Removed w.room.pool fd) s (pool_remove_by_fd-Removed spare w.room.pool fd h) in
          rw (s, handle_event)
            (hand_back-Handed w qs event.is_error c later r inv (λ n. tally-Perm n p))
    ]

handle_event-Handled :
    (spare : Conn) (w : Watch) (qs : List Conn) (event : IoEvent)
    → Represents w.work_q qs
    → length qs < w.work_q.capacity
    → PoolInv w.room.pool
    → (w' : Watch) × (handle_event spare w event ≡ some w') × Handled w qs 1 w'
handle_event-Handled spare w qs event r g h =
    let k = handle_event-Handed spare w qs event r h in
    elim (Option-cases (handle_event spare w event)) [
      | inl n ↦
          let full : length qs ≡ w.work_q.capacity = subst (Handed w qs) n k in absurd (omega arith)
      | inr (w', e) ↦ (w', e, subst (Handed w qs) e k)
    ]

-- Two stretches of events.
trans-Handled :
    {w w' w'' : Watch} {qs : List Conn} {n : ℕ} (a : Handled w qs 1 w')
    → Handled w' (qs ++ a.back) n w''
    → Handled w qs (suc n) w''
trans-Handled {w} {w'} {w''} {qs} {n} a b = record {
  back = a.back ++ b.back;
  fits = let l = length-append a.back b.back in let x = a.fits in let y = b.fits in omega arith;
  queued = subst (Represents w''.work_q) (append_assoc qs a.back b.back) b.queued;
  same_capacity = b.same_capacity ∙ a.same_capacity;
  pool_ok = b.pool_ok;
  kept = λ fd.
      let t : tally fd (a.back ++ b.back) ≡ tally fd a.back + tally fd b.back =
        tally-append fd a.back b.back in
      let x = a.kept fd in let y = b.kept fd in omega arith;
}

-- The loop ends, without waiting, when the work queue has room for as many connections as there are
-- events.
pub handle_events-Handled :
    (spare : Conn) (w : Watch) (qs : List Conn) (events : List IoEvent)
    → Represents w.work_q qs
    → length qs + length events ≤ w.work_q.capacity
    → PoolInv w.room.pool
    → (w' : Watch) × (handle_events spare w events ≡ some w') × Handled w qs (length events) w'
unfolding handle_events
handle_events-Handled spare w qs [] r g h = (w, refl, nothing-Handled w qs 0 r h)
handle_events-Handled spare w qs (event ∷ events) r g h =
    let (w', e, a) = handle_event-Handled spare w qs event r (omega arith) h in
    let l = length-append qs a.back in
    let x = a.fits in
    let k = a.same_capacity in
    let (w'', f, b) =
      handle_events-Handled spare w' (qs ++ a.back) events a.queued (omega arith) a.pool_ok in
    (w'', rw (e, handle_events) f, trans-Handled a b)

-- What a round comes to.
pub record TickOk (w : Watch) (cs qs : List Conn) (n now : ℕ) (out : Ticked) : Type 0 where
  pub drained : Represents out.wait_q []
  pub back : List Conn
  pub fits : length back ≤ n
  pub queued : Represents out.watch.work_q (qs ++ back)
  pub pool_ok : PoolInv out.watch.room.pool
  pub live : All (Live now) (contents out.watch.room.pool)
  pub kept : (fd : ℕ) → owned fd out.watch.room + tally fd back ≡ owned fd w.room + tally fd cs

-- The drained connections.
place_all-Kept :
    (spare : Conn) (registers : ℕ → Bool) (room : Room) (cs : List Conn)
    → PoolInv room.pool
    → PoolInv (place_all spare registers room cs).pool
      × ((fd : ℕ) → owned fd (place_all spare registers room cs) ≡ owned fd room + tally fd cs)
place_all-Kept spare registers room [] h = (h, λ fd. omega arith)
place_all-Kept spare registers room (c ∷ cs) h =
    let (a, k) = place-Kept spare registers room c h in
    let (b, l) = place_all-Kept spare registers (place spare registers room c) cs a in
    (b, λ fd. let x = k fd in let y = l fd in omega arith)

-- The sweep ends, and what it takes from the pool it closes.
pub sweep-Live :
    (spare : Conn) (w : Watch) (now : ℕ)
    → PoolInv w.room.pool
    → (w' : Watch) × (sweep spare w now ≡ some w')
      × (w'.work_q ≡ w.work_q)
      × PoolInv w'.room.pool
      × All (Live now) (contents w'.room.pool)
      × ((fd : ℕ) → owned fd w'.room ≡ owned fd w.room)
unfolding sweep
sweep-Live spare w now h = elim (Option-cases (pool_sweep_expired spare w.room.pool now)) [
  | inl n ↦
      absurd (subst (Swept w.room.pool now []) n (pool_sweep_expired-Swept spare w.room.pool now h))
  | inr ((later, all), s) ↦
      let (cs, e, p, x, l, inv) =
        subst (Swept w.room.pool now []) s (pool_sweep_expired-Swept spare w.room.pool now h) in
      (
        record w { room = record { pool = later; closed = w.room.closed ++ all } },
        rw (s, sweep) refl,
        refl,
        inv,
        l,
        λ fd.
            let t : tally fd (contents w.room.pool) ≡ tally fd cs + tally fd (contents later) =
              tally-Perm fd p ∙ tally-append fd cs (contents later) in
            let u : tally fd all ≡ tally fd cs = ap (tally fd) e in
            let v = tally-append fd w.room.closed all in omega arith,
      )
]

-- While the server runs, and the work queue has room for a connection for each event, a round of the
-- wait room ends without waiting in `queue_push`. It leaves the wait queue empty and, in a well-formed
-- pool, only connections whose deadline is later than `now`. For every descriptor: the connections
-- with it that were in the pool, closed or in the wait queue before are as many as those in the pool,
-- closed or newly behind the others in the work queue after; so none is lost or doubled.
pub tick-TickOk :
    (spare : Conn) (registers : ℕ → Bool) (fuel : ℕ) (wait_q : WorkQueue) (conn : Conn) (w : Watch)
    (events : List IoEvent) (now : ℕ) (cs qs : List Conn)
    → Represents wait_q cs
    → wait_q.shutting_down ≡ false
    → length cs < fuel
    → PoolInv w.room.pool
    → Represents w.work_q qs
    → length qs + length events ≤ w.work_q.capacity
    → (out : Ticked) × (tick spare registers fuel wait_q conn w events now ≡ some out)
      × TickOk w cs qs (length events) now out
unfolding tick
tick-TickOk spare registers fuel wait_q conn w events now cs qs r s f h q g =
    let (d, e, empty, p) = drain-place_all spare registers fuel wait_q cs w.room conn r s f in
    let (inv, k) = place_all-Kept spare registers w.room cs h in
    let inv' : PoolInv d.room.pool = subst (λ x. PoolInv x.pool) (sym p) inv in
    let k' : (fd : ℕ) → owned fd d.room ≡ owned fd w.room + tally fd cs =
      λ fd. ap (owned fd) p ∙ k fd in
    let (w', e', a) = handle_events-Handled spare (record w { room = d.room }) qs events q g inv' in
    let (w'', e'', same, ok, live, l) = sweep-Live spare w' now a.pool_ok in
    (
      record { wait_q = d.queue; watch = w'' },
      rw (e, tick) (rw e' (rw e'' refl)),
      record {
        drained = empty;
        back = a.back;
        fits = a.fits;
        queued = subst (λ x. Represents x (qs ++ a.back)) (sym same) a.queued;
        pool_ok = ok;
        live = live;
        kept = λ fd. let x = k' fd in let y = a.kept fd in let z = l fd in omega arith;
      },
    )
