-- ===== src/ConnPool/Sweep.antt =====
-- The sweep of the expired connections, `pool_sweep_expired`, which walks the array while it takes
-- connections out of it, and the time to the next deadline, `pool_nearest_timeout_ms`.
use celeritas.Prelude.{
  ℕ, zero, suc, ◌+◌, ◌-◌, ◌*◌, ◌<◌, ◌≤◌, Option, none, some, List, [], ◌∷◌, ◌++◌, ltb, leb, ◌≡◌,
  ◌≢◌, ◌%◌, ◌^◌, ◌==◌, true, false, ◌⊎◌, inl, inr, refl, sym, subst, arith, get_or, set, take,
  length, take_snoc, take-set_past, All, All-snoc, All-map, Any, Any-map, Bool-cases, if◌then◌else◌,
  append-nil, append_assoc, ◌∙◌,
}
use celeritas.Types.{Conn}
use celeritas.ConnPool.{
  ConnPool, move_last, sweep_from, pool_sweep_expired, min_expiry, NearestMs, minus_one, ms,
  overflow, int_diff, to_ms, pool_nearest_timeout_ms,
}
use celeritas.ConnPool.Bag.{contents, PoolInv, move_last-PoolInv, move_last-contents}
use mathlib.Core.List.{Perm}
use mathlib.Core.List.Perm
use native.Mathlib.Nat.{le_trans}

abbrev pub Expired : ℕ → Conn → Type 0
Expired now c = c.keepalive_deadline ≤ now

abbrev pub Live : ℕ → Conn → Type 0
Live now c = now < c.keepalive_deadline

-- What a sweep of `pool` promises: it ends, it closes the expired connections and keeps the live
-- ones.
abbrev pub Swept : ConnPool → ℕ → List Conn → Option (ConnPool × List Conn) → Type 0
Swept pool now closed none = ⊥
Swept pool now closed (some (later, all)) =
    (cs : List Conn) × (all ≡ closed ++ cs)
    × Perm (contents pool) (cs ++ contents later)
    × All (Expired now) cs
    × All (Live now) (contents later)
    × PoolInv later

module _ (spare : Conn) (pool : ConnPool) (now i : ℕ) (closed : List Conn) (h : PoolInv pool) where
  Swept-close :
      (o : Option (ConnPool × List Conn))
      → i < pool.count
      → Expired now (get_or pool.items i spare)
      → Swept (move_last spare pool i) now (closed ++ get_or pool.items i spare ∷ []) o
      → Swept pool now closed o
  Swept-close none g x s = absurd s
  Swept-close (some (later, all)) g x (cs, e, p, ex, l, inv) =
      let c = get_or pool.items i spare in
      (
        c ∷ cs,
        e ∙ append_assoc closed (c ∷ []) cs,
        Perm.trans (move_last-contents spare pool i h g) (Perm.cons c p),
        (x, ex),
        l,
        inv,
      )

  take_next-Live :
      i < pool.count
      → Live now (get_or pool.items i spare)
      → All (Live now) (take i pool.items)
      → All (Live now) (take (i + 1) pool.items)
  take_next-Live g x l =
      let a : pool.count ≤ pool.capacity = h.0 in
      let b : length pool.items ≡ pool.capacity = h.1 in
      let s : suc i ≡ i + 1 = omega arith in
      subst (λ n. All (Live now) (take n pool.items)) s
        (subst (All (Live now)) (sym (take_snoc pool.items i spare (omega arith)))
          (All-snoc (Live now) (take i pool.items) (get_or pool.items i spare) l x))

sweep_from-Swept :
    (spare : Conn) (fuel : ℕ) (pool : ConnPool) (now i : ℕ) (closed : List Conn)
    → PoolInv pool
    → i ≤ pool.count
    → pool.count < i + fuel
    → All (Live now) (take i pool.items)
    → Swept pool now closed (sweep_from spare fuel pool now i closed)
unfolding sweep_from
sweep_from-Swept spare zero pool now i closed h g f l = absurd (omega arith)
sweep_from-Swept spare (suc fuel) pool now i closed h g f l =
    let c = get_or pool.items i spare in
    elim (Bool-cases (ltb i pool.count)) [
      | inr t ↦
          let s : i ≡ pool.count = ground (arith, t) in
          rw t (
            [],
            sym (append-nil closed),
            Perm.refl (contents pool),
            tt,
            subst (λ n. All (Live now) (take n pool.items)) s l,
            h,
          )
      | inl t ↦
          let g' : i < pool.count = ground (arith, t) in
          elim (Bool-cases (leb c.keepalive_deadline now)) [
            | inl u ↦
                let x : Expired now c = ground (arith, u) in
                let v = set pool.items i (get_or pool.items (pool.count - 1) spare) in
                rw (t, u)
                  (Swept-close spare pool now i closed h
                    (sweep_from spare fuel (move_last spare pool i) now i (closed ++ c ∷ [])) g' x
                    (sweep_from-Swept spare fuel (move_last spare pool i) now i (closed ++ c ∷ [])
                      (move_last-PoolInv spare pool i h (omega arith))
                      (unfold move_last in omega arith) (unfold move_last in omega arith)
                      (unfold move_last in
                        subst (All (Live now))
                          (sym (
                            take-set_past pool.items i i (get_or pool.items (pool.count - 1) spare)
                              (omega arith)))
                          l)))
            | inr u ↦
                let x : Live now c = ground (arith, u) in
                rw (t, u)
                  (sweep_from-Swept spare fuel pool now (i + 1) closed h (omega arith) (omega arith)
                    (take_next-Live spare pool now i closed h g' x l))
          ]
    ]

-- Of a well-formed pool, `pool_sweep_expired` always ends. The connections it closes and those it
-- leaves are together the connections of the pool, as bags; every closed one has its deadline at or
-- before `now`, every one left has it later; and the pool stays well formed.
pub pool_sweep_expired-Swept :
    (spare : Conn) (pool : ConnPool) (now : ℕ)
    → PoolInv pool
    → Swept pool now [] (pool_sweep_expired spare pool now)
unfolding pool_sweep_expired
pool_sweep_expired-Swept spare pool now h =
    sweep_from-Swept spare (pool.count + 1) pool now 0 [] h (omega arith) (omega arith) tt

lower : ℕ → ℕ → ℕ
lower d m = if ltb d m then d else m

lower-le : (d m : ℕ) → (lower d m ≤ d) × (lower d m ≤ m) × ((lower d m ≡ d) ⊎ (lower d m ≡ m))
unfolding lower
lower-le d m = elim (Bool-cases (ltb d m)) [ inl t ↦ ground (arith, t) | inr t ↦ ground (arith, t) ]

min_expiry-le :
    (cs : List Conn) (m : ℕ)
    → (min_expiry cs m ≤ m) × All (λ c. min_expiry cs m ≤ c.keepalive_deadline) cs
unfolding min_expiry lower
min_expiry-le [] m = (omega arith, tt)
min_expiry-le (c ∷ cs) m =
    let d = lower c.keepalive_deadline m in
    let l = lower-le c.keepalive_deadline m in
    let r = min_expiry-le cs d in
    let a : d ≤ c.keepalive_deadline = l.0 in
    let b : d ≤ m = l.1 in let x : min_expiry cs d ≤ d = r.0 in (le_trans x b, (le_trans x a, r.1))

min_expiry-attained :
    (cs : List Conn) (m : ℕ)
    → (min_expiry cs m ≡ m) ⊎ Any (λ c. min_expiry cs m ≡ c.keepalive_deadline) cs
unfolding min_expiry lower
min_expiry-attained [] m = inl refl
min_expiry-attained (c ∷ cs) m =
    let d = lower c.keepalive_deadline m in
    elim (min_expiry-attained cs d) [
      | inl e ↦ elim (lower-le c.keepalive_deadline m).2 [
        | inl f ↦ inr (inl (e ∙ f))
        | inr f ↦ inl (e ∙ f)
      ]
      | inr a ↦ inr (inr a)
    ]

-- What `pool_nearest_timeout_ms` promises: -1 for no connection, else the time that is left, in
-- milliseconds, to the connection that has least; and that it does not overflow.
abbrev pub Nearest : List Conn → ℕ → NearestMs → Type 0
Nearest cs now minus_one = cs ≡ []
Nearest cs now (ms t) =
    All (λ c. t ≤ (c.keepalive_deadline - now) * 1000) cs
    × Any (λ c. t ≡ (c.keepalive_deadline - now) * 1000) cs
Nearest cs now overflow = ⊥

-- The deadline is at most 2147483 seconds away, so that the milliseconds fit an `int`, and at most
-- 2 ^ 31 past.
abbrev pub InRange : ℕ → Conn → Type 0
InRange now c = (c.keepalive_deadline ≤ now + 2147483) × (now ≤ c.keepalive_deadline + 2 ^ 31)

to_ms-diff :
    (m now : ℕ)
    → m ≤ now + 2147483
    → now ≤ m + 2 ^ 31
    → now < 2 ^ 63
    → to_ms (int_diff m now) ≡ ms ((m - now) * 1000)
unfolding to_ms int_diff
to_ms-diff m now a b c = elim (Bool-cases (ltb now m)) [
  | inl t ↦
      let later : now < m = ground (arith, t) in
      let d : (m + 2 ^ 64 - now) % 2 ^ 32 ≡ m - now = omega arith in
      let z : (m - now == 0) ≡ false = ground arith in
      let n : leb (2 ^ 31) (m - now) ≡ false = ground arith in
      let f : leb (2 ^ 31) ((m - now) * 1000) ≡ false = ground arith in rw (d, z, n, f) refl
  | inr t ↦
      let past : m ≤ now = ground (arith, t) in
      let none_left : (m - now) * 1000 ≡ 0 = omega arith in
      elim (Bool-cases ((m + 2 ^ 64 - now) % 2 ^ 32 == 0)) [
        | inl z ↦ rw (z, none_left) refl
        | inr z ↦
            let w : ((m + 2 ^ 64 - now) % 2 ^ 32) ≢ 0 = ground (arith, z) in
            let n : leb (2 ^ 31) ((m + 2 ^ 64 - now) % 2 ^ 32) ≡ true = ground arith in
            rw (z, n, none_left) refl
      ]
]

-- A connection of the list has both properties.
Any-All : (P Q : Conn → Type 0) (cs : List Conn) → Any P cs → All Q cs → (c : Conn) × P c × Q c
Any-All P Q [] a b = absurd a
Any-All P Q (c ∷ cs) (inl p) b = (c, p, b.0)
Any-All P Q (c ∷ cs) (inr a) b = Any-All P Q cs a b.1

-- At a time below 2 ^ 63, with deadlines that are at most 2147483 seconds away, which a
-- `keepalive_timeout` of 16 bits keeps to, and no more than 2 ^ 31 seconds past,
-- `pool_nearest_timeout_ms` does not overflow. It answers -1 only for an empty pool; otherwise its answer
-- is the time that is left, in milliseconds, to one connection of the pool, and no connection has less.
-- A connection whose deadline is past has 0 left.
pub pool_nearest_timeout_ms-Nearest :
    (pool : ConnPool) (now : ℕ)
    → now < 2 ^ 63
    → All (InRange now) (contents pool)
    → Nearest (contents pool) now (pool_nearest_timeout_ms pool now)
unfolding pool_nearest_timeout_ms
pool_nearest_timeout_ms-Nearest pool now clock = earliest (contents pool)
  where
    earliest :
        (cs : List Conn)
        → All (InRange now) cs
        → Nearest cs now (elim cs [
          | [] ↦ minus_one
          | c ∷ cs' ↦ to_ms (int_diff (min_expiry cs' c.keepalive_deadline) now)
        ])
    earliest [] range = refl
    earliest (c ∷ cs) range =
        let m = min_expiry cs c.keepalive_deadline in
        let r = min_expiry-le cs c.keepalive_deadline in
        let x : m ≤ c.keepalive_deadline = r.0 in
        let attained = min_expiry-attained cs c.keepalive_deadline in
        let (d, is, (near, far)) =
          Any-All (λ d. m ≡ d.keepalive_deadline) (InRange now) (c ∷ cs) attained range in
        subst (Nearest (c ∷ cs) now) (sym (to_ms-diff m now (omega arith) (omega arith) clock)) (
          (
            omega arith,
            All-map (λ d. m ≤ d.keepalive_deadline)
                (λ d. (m - now) * 1000 ≤ (d.keepalive_deadline - now) * 1000) cs
                (λ d y. omega arith) r.1,
          ),
          Any-map (λ d. m ≡ d.keepalive_deadline)
              (λ d. (m - now) * 1000 ≡ (d.keepalive_deadline - now) * 1000) (c ∷ cs)
              (λ d y. omega arith) attained,
        )
