-- ===== src/WaitRoom/Timeout.antt =====
-- How long the wait room waits for events at most.
use celeritas.Prelude.{
  ℕ, ◌-◌, ◌*◌, ◌^◌, ◌≤◌, ◌<◌, ◌≡◌, refl, sym, some, List, ltb, inl, inr, arith, All, All-map,
  Bool-cases, subst,
}
use celeritas.Types.{Conn}
use celeritas.ConnPool.{ConnPool, NearestMs, minus_one, ms, overflow, pool_nearest_timeout_ms}
use celeritas.ConnPool.Bag.{contents}
use celeritas.ConnPool.Sweep.{Nearest, InRange, pool_nearest_timeout_ms-Nearest}
use celeritas.WaitRoom.Tick.{max_tick_ms, capped, tick_timeout}

capped-le :
    (cs : List Conn) (now : ℕ) (near : NearestMs)
    → Nearest cs now near
    → (t : ℕ) × (capped near ≡ some t)
      × (t ≤ 200)
      × All (λ c. t ≤ (c.keepalive_deadline - now) * 1000) cs
unfolding capped
capped-le cs now minus_one empty = (
  200,
  refl,
  omega arith,
  subst (All (λ c. 200 ≤ (c.keepalive_deadline - now) * 1000)) (sym empty) tt,
)
capped-le cs now (ms t) (all, _) = elim (Bool-cases (ltb max_tick_ms t)) [
  | inl e ↦
      let far : 200 ≤ t = ground (arith, e) in
      (
        200,
        rw e refl,
        omega arith,
        All-map (λ c. t ≤ (c.keepalive_deadline - now) * 1000)
            (λ c. 200 ≤ (c.keepalive_deadline - now) * 1000) cs (λ c x. omega arith) all,
      )
  | inr e ↦ (t, rw e refl, ground (arith, e), all)
]
capped-le cs now overflow bad = absurd bad

-- With deadlines in the range of an `int`, the wait room waits 200 ms at most, and never past the
-- deadline of a connection of its pool, so that each is swept in time.
pub tick_timeout-le :
    (pool : ConnPool) (now : ℕ)
    → now < 2 ^ 63
    → All (InRange now) (contents pool)
    → (t : ℕ) × (tick_timeout pool now ≡ some t)
      × (t ≤ 200)
      × All (λ c. t ≤ (c.keepalive_deadline - now) * 1000) (contents pool)
unfolding tick_timeout
tick_timeout-le pool now clock range =
    capped-le (contents pool) now (pool_nearest_timeout_ms pool now)
      (pool_nearest_timeout_ms-Nearest pool now clock range)
