-- ===== src/Traffic/Balanced.antt =====
-- Where the connections are, counted by descriptor, after any steps of the threads.
use celeritas.Prelude.{
  ℕ, ◌+◌, ◌≡◌, inl, inr, refl, sym, ap, ◌∙◌, subst, true, false, some, List, [], ◌∷◌, ◌++◌, arith,
  OnSome_elim,
}
use mathlib.Core.Option.{some-injective}
use celeritas.Config.{ConfigData}
use celeritas.ConnPool.Bag.{PoolInv, contents}
use celeritas.Types.{Conn}
use celeritas.WaitRoom.Handled.{Handled, Handed, handle_event-Handed, sweep-Live}
use celeritas.WaitRoom.Kept.{owned, place-Kept, tally-snoc, one_if-fd}
use celeritas.WaitRoom.Tally.{one_if, tally, tally-append}
use celeritas.WaitRoom.Tick.{Watch}
use celeritas.WorkQueue.Fifo.{Represents}
use celeritas.WorkQueue.Stepped.{
  pushed-Represents, popped-Represents, stopped-Represents, pushed-shutting_down,
  popped-shutting_down, at_shutdown-shutting_down,
}
use celeritas.Worker.{Answers, Fate, parked, closed, stopped, worker_round}
use celeritas.Worker.ParkedFd.{fate_fd, FateFd, worker_round-FateFd}
use celeritas.Traffic.{
  Traffic, watch_of, Runs, begin, accept, pop, park, close, stop, move_in, wake, expire, take_again,
  shut_down_work, shut_down_wait,
}

-- The queues hold lists, the pool is well formed, and each descriptor was accepted, or taken again, as
-- often as connections with it stand in the work queue, with a worker, in the wait queue, in the pool,
-- and among those closed by the wait room or by a worker. None is taken again before the wait queue is
-- shut down.
pub record Balanced (ins : List Conn) (t : Traffic) : Type 0 where
  pub work : List Conn
  pub wait : List Conn
  pub work_holds : Represents t.work_q work
  pub wait_holds : Represents t.wait_q wait
  pub pool_ok : PoolInv t.room.pool
  pub balance :
      (fd : ℕ)
      → tally fd ins + tally fd t.again
        ≡ tally fd work + tally fd t.busy + tally fd wait + owned fd t.room + tally fd t.done
  pub none_again : t.wait_q.shutting_down ≡ false → t.again ≡ []

-- A worker gives up the connection `c`.
taken-tally :
    (fd : ℕ) (busy before after : List Conn) (c : Conn)
    → busy ≡ before ++ c ∷ after
    → tally fd busy ≡ one_if fd c + tally fd (before ++ after)
taken-tally fd busy before after c e =
    let a : tally fd busy ≡ tally fd (before ++ c ∷ after) = ap (tally fd) e in
    let b = tally-append fd before (c ∷ after) in
    let d = tally-append fd before after in omega arith

-- The connection at the end of a round counts as that at its start.
same_one_if :
    (conf : ConfigData) (a : Answers) (c : Conn) (fate : Fate) (d : Conn)
    → worker_round conf a c ≡ some fate
    → d.fd ≡ fate_fd fate
    → (fd : ℕ) → one_if fd d ≡ one_if fd c
same_one_if conf a c fate d e k fd =
    one_if-fd fd d c
      (k ∙ OnSome_elim (FateFd c.fd) (worker_round conf a c) fate (worker_round-FateFd conf a c) e)

ended-Balanced :
    (ins : List Conn) (t : Traffic) (before after : List Conn) (c d : Conn)
    → Balanced ins t
    → t.busy ≡ before ++ c ∷ after
    → ((fd : ℕ) → one_if fd d ≡ one_if fd c)
    → Balanced ins (record t { busy = before ++ after; done = d ∷ t.done })
ended-Balanced ins t before after c d b e k = record {
  work = b.work;
  wait = b.wait;
  work_holds = b.work_holds;
  wait_holds = b.wait_holds;
  pool_ok = b.pool_ok;
  balance = λ fd.
      let x = b.balance fd in
      let y = taken-tally fd t.busy before after c e in let z = k fd in omega arith;
  none_again = b.none_again;
}

-- The wait room hands a connection back, or keeps or closes those it has.
wake-Balanced :
    (spare : Conn) (ins : List Conn) (t : Traffic) (w : Watch)
    → (b : Balanced ins t) → Handled (watch_of t) b.work 1 w
    → Balanced ins (record t { work_q = w.work_q; room = w.room })
wake-Balanced spare ins t w b h = record {
  work = b.work ++ h.back;
  wait = b.wait;
  work_holds = h.queued;
  wait_holds = b.wait_holds;
  pool_ok = h.pool_ok;
  balance = λ fd.
      let x = b.balance fd in
      let y = h.kept fd in let z = tally-append fd b.work h.back in omega arith;
  none_again = b.none_again;
}

pub Runs-Balanced-from :
    (spare : Conn) (start : Traffic) {ins : List Conn} {t : Traffic}
    → Balanced [] start
    → Runs spare start ins t
    → Balanced ins t
Runs-Balanced-from spare start s begin = s
Runs-Balanced-from spare start s (accept {ins} {t} c q r e) =
    let b = Runs-Balanced-from spare start s r in
    record {
      work = b.work ++ c ∷ [];
      wait = b.wait;
      work_holds = pushed-Represents t.work_q b.work c q b.work_holds e;
      wait_holds = b.wait_holds;
      pool_ok = b.pool_ok;
      balance = λ fd.
          let x = b.balance fd in
          let y = tally-snoc fd ins c in let z = tally-snoc fd b.work c in omega arith;
      none_again = b.none_again;
    }
Runs-Balanced-from spare start s (pop {ins} {t} c q r e) =
    let b = Runs-Balanced-from spare start s r in
    let (rest, split, holds) = popped-Represents t.work_q b.work c q b.work_holds (inl e) in
    record {
      work = rest;
      wait = b.wait;
      work_holds = holds;
      wait_holds = b.wait_holds;
      pool_ok = b.pool_ok;
      balance = λ fd.
          let x = b.balance fd in
          let y : tally fd b.work ≡ one_if fd c + tally fd rest = ap (tally fd) split in
          omega arith;
      none_again = b.none_again;
    }
Runs-Balanced-from spare start s (park {ins} {t} before after c c' q conf a ctx sent r e f g) =
    let b = Runs-Balanced-from spare start s r in
    record {
      work = b.work;
      wait = b.wait ++ c' ∷ [];
      work_holds = b.work_holds;
      wait_holds = pushed-Represents t.wait_q b.wait c' q b.wait_holds g;
      pool_ok = b.pool_ok;
      balance = λ fd.
          let x = b.balance fd in
          let y = taken-tally fd t.busy before after c e in
          let z = tally-snoc fd b.wait c' in
          let v = same_one_if conf a c (parked c' ctx sent) c' f refl fd in omega arith;
      none_again = λ h. b.none_again (sym (pushed-shutting_down t.wait_q c' q g) ∙ h);
    }
Runs-Balanced-from spare start s (close {ins} {t} before after c conf a ctx release sent r e f) =
    ended-Balanced ins t before after c ctx.conn (Runs-Balanced-from spare start s r) e
      (same_one_if conf a c (closed ctx release sent) ctx.conn f refl)
Runs-Balanced-from spare start s (stop {ins} {t} before after c conf a ctx sent r e f) =
    ended-Balanced ins t before after c ctx.conn (Runs-Balanced-from spare start s r) e
      (same_one_if conf a c (stopped ctx sent) ctx.conn f refl)
Runs-Balanced-from spare start s (move_in {ins} {t} registers c q r e) =
    let b = Runs-Balanced-from spare start s r in
    let (rest, split, holds) = popped-Represents t.wait_q b.wait c q b.wait_holds (inr e) in
    let (inv, kept) = place-Kept spare registers t.room c b.pool_ok in
    record {
      work = b.work;
      wait = rest;
      work_holds = b.work_holds;
      wait_holds = holds;
      pool_ok = inv;
      balance = λ fd.
          let x = b.balance fd in
          let y : tally fd b.wait ≡ one_if fd c + tally fd rest = ap (tally fd) split in
          let z = kept fd in omega arith;
      none_again =
          λ h. b.none_again (sym (popped-shutting_down t.wait_q b.wait c q b.wait_holds e) ∙ h);
    }
Runs-Balanced-from spare start s (take_again {ins} {t} registers c r e) =
    let b = Runs-Balanced-from spare start s r in
    let (inv, kept) = place-Kept spare registers t.room c b.pool_ok in
    record {
      work = b.work;
      wait = b.wait;
      work_holds = b.work_holds;
      wait_holds = b.wait_holds;
      pool_ok = inv;
      balance = λ fd. let x = b.balance fd in let z = kept fd in omega arith;
      none_again = λ h.
          let on = at_shutdown-shutting_down t.wait_q b.wait b.wait_holds e in
          let off : true ≡ false = sym on ∙ h in absurd (ground (arith, off));
    }
Runs-Balanced-from spare start s (wake {ins} {t} event w r e) =
    let b = Runs-Balanced-from spare start s r in
    wake-Balanced spare ins t w b (
      subst (Handed (watch_of t) b.work) e
        (handle_event-Handed spare (watch_of t) b.work event b.work_holds b.pool_ok))
Runs-Balanced-from spare start s (expire {ins} {t} now w r e) =
    let b = Runs-Balanced-from spare start s r in
    let (w', f, same, inv, live, kept) = sweep-Live spare (watch_of t) now b.pool_ok in
    let at : w' ≡ w = some-injective _ _ (sym f ∙ e) in
    record {
      work = b.work;
      wait = b.wait;
      work_holds = b.work_holds;
      wait_holds = b.wait_holds;
      pool_ok = subst (λ x. PoolInv x.room.pool) at inv;
      balance = λ fd.
          let x = b.balance fd in
          let y : owned fd w.room ≡ owned fd t.room =
            subst (λ v. owned fd v.room ≡ owned fd t.room) at (kept fd) in
          omega arith;
      none_again = b.none_again;
    }
Runs-Balanced-from spare start s (shut_down_work {ins} {t} r) =
    let b = Runs-Balanced-from spare start s r in
    record {
      work = b.work;
      wait = b.wait;
      work_holds = stopped-Represents t.work_q b.work b.work_holds;
      wait_holds = b.wait_holds;
      pool_ok = b.pool_ok;
      balance = b.balance;
      none_again = b.none_again;
    }
Runs-Balanced-from spare start s (shut_down_wait {ins} {t} r) =
    let b = Runs-Balanced-from spare start s r in
    record {
      work = b.work;
      wait = b.wait;
      work_holds = b.work_holds;
      wait_holds = stopped-Represents t.wait_q b.wait b.wait_holds;
      pool_ok = b.pool_ok;
      balance = b.balance;
      none_again = λ h. absurd (ground (arith, h));
    }

-- From two empty queues and an empty pool, the invariant holds after any interleaving.
pub Runs-Balanced :
    (spare : Conn) (start : Traffic) (ins : List Conn) (t : Traffic)
    → Represents start.work_q []
    → Represents start.wait_q []
    → PoolInv start.room.pool
    → contents start.room.pool ≡ []
    → start.room.closed ≡ []
    → start.busy ≡ []
    → start.done ≡ []
    → start.again ≡ []
    → Runs spare start ins t
    → Balanced ins t
Runs-Balanced spare start ins t w v p c d b e g r =
    Runs-Balanced-from spare start
      (record {
        work = [];
        wait = [];
        work_holds = w;
        wait_holds = v;
        pool_ok = p;
        balance = λ fd.
            let x : tally fd (contents start.room.pool) ≡ 0 = ap (tally fd) c in
            let y : tally fd start.room.closed ≡ 0 = ap (tally fd) d in
            let z : tally fd start.busy ≡ 0 = ap (tally fd) b in
            let u : tally fd start.done ≡ 0 = ap (tally fd) e in
            let a : tally fd start.again ≡ 0 = ap (tally fd) g in omega arith;
        none_again = λ h. g;
      })
      r
