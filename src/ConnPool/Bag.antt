-- ===== src/ConnPool/Bag.antt =====
-- The connections of the pool as a bag: what adding and removing do to it, whatever slot a
-- connection stands in.
use celeritas.Prelude.{
  ℕ, zero, suc, ◌+◌, ◌-◌, ◌<◌, ◌≤◌, Option, none, some, List, [], ◌∷◌, ◌++◌, ◌==◌, ◌≡◌, ◌≢◌, inl,
  inr, refl, sym, subst, arith, get_or, set, take, length, take_snoc, take-set, All, All-snoc,
  length-set, Bool-cases,
}
use celeritas.Types.{Conn}
use celeritas.ConnPool.{
  ConnPool, pool_init, pool_add, move_last, remove_by_fd_from, pool_remove_by_fd,
}
use mathlib.Core.List.{Perm, perm_append_singleton}
use mathlib.Core.List.Perm

-- The connections in use.
abbrev pub contents : ConnPool → List Conn
contents pool = take pool.count pool.items

-- The memory is that of `capacity` slots, and no more of them are in use.
abbrev pub PoolInv : ConnPool → Type 0
PoolInv pool = (pool.count ≤ pool.capacity) × (length pool.items ≡ pool.capacity)

module _ {ℓ} {A : Type ℓ} where
  -- Slot `i` gets the last element, and is lost with the last slot.
  pub take-move :
      (xs : List A) (i k : ℕ) (d : A)
      → i ≤ k
      → k < length xs
      → Perm (take (suc k) xs) (get_or xs i d ∷ take k (set xs i (get_or xs k d)))
  take-move [] i k d h g = absurd (omega arith)
  take-move (x ∷ xs) zero zero d h g = Perm.refl (x ∷ [])
  take-move (x ∷ xs) zero (suc k) d h g = Perm.cons x (
      subst (λ t. Perm t (get_or xs k d ∷ take k xs)) (sym (take_snoc xs k d (omega arith)))
        (perm_append_singleton (get_or xs k d) (take k xs)))
  take-move (x ∷ xs) (suc i) zero d h g = absurd (omega arith)
  take-move (x ∷ xs) (suc i) (suc k) d h g =
      Perm.trans (Perm.cons x (take-move xs i k d (omega arith) (omega arith)))
        (Perm.swap (get_or xs i d) x (take k (set xs i (get_or xs k d))))

-- The loop of `pool_remove_by_fd` and the sweep leave a pool that is still one.
pub move_last-PoolInv :
    (spare : Conn) (pool : ConnPool) (i : ℕ)
    → PoolInv pool
    → 0 < pool.count
    → PoolInv (move_last spare pool i)
move_last-PoolInv spare pool i h g =
    let a : pool.count ≤ pool.capacity = h.0 in
    let e : length pool.items ≡ pool.capacity = h.1 in
    let l : length (set pool.items i (get_or pool.items (pool.count - 1) spare))
        ≡ length pool.items =
      length-set pool.items i (get_or pool.items (pool.count - 1) spare) in
    (unfold move_last in omega arith, unfold move_last in omega arith)

pub move_last-contents :
    (spare : Conn) (pool : ConnPool) (i : ℕ)
    → PoolInv pool
    → i < pool.count
    → Perm (contents pool) (get_or pool.items i spare ∷ contents (move_last spare pool i))
unfolding move_last
move_last-contents spare pool i h g =
    let a : pool.count ≤ pool.capacity = h.0 in
    let e : length pool.items ≡ pool.capacity = h.1 in
    let k = pool.count - 1 in
    let s : suc k ≡ pool.count = omega arith in
    subst
      (λ n.
        Perm (take n pool.items)
          (get_or pool.items i spare ∷ take k (set pool.items i (get_or pool.items k spare))))
      s (take-move pool.items i k spare (omega arith) (omega arith))

-- An initialised pool holds no connection.
-- Over memory for `max_conns` connections, `pool_init` gives a well-formed empty pool of that
-- capacity.
pub pool_init-contents :
    (memory : List Conn) (max_conns : ℕ)
    → length memory ≡ max_conns
    → (pool : ConnPool) × (pool_init (some memory) max_conns ≡ some pool)
      × PoolInv pool
      × (contents pool ≡ [])
unfolding pool_init
pool_init-contents memory max_conns h =
    (record { items = memory; count = 0; capacity = max_conns }, refl, (omega arith, h), refl)

-- A pool that is not full takes a connection, behind those it holds, and stays well formed.
pub pool_add-contents :
    (pool : ConnPool) (new_conn : Conn)
    → PoolInv pool
    → pool.count < pool.capacity
    → (later : ConnPool) × (pool_add pool new_conn ≡ some later)
      × PoolInv later
      × (contents later ≡ contents pool ++ new_conn ∷ [])
unfolding pool_add
pool_add-contents pool new_conn h g =
    let e : length pool.items ≡ pool.capacity = h.1 in
    let l : length (set pool.items pool.count new_conn) ≡ length pool.items =
      length-set pool.items pool.count new_conn in
    let s : suc pool.count ≡ pool.count + 1 = omega arith in
    (
      record pool { items = set pool.items pool.count new_conn; count = pool.count + 1 },
      ground arith,
      (omega arith, omega arith),
      subst (λ n. take n (set pool.items pool.count new_conn) ≡ contents pool ++ new_conn ∷ []) s
          (take-set pool.items pool.count new_conn (omega arith)),
    )

-- What `pool_remove_by_fd` promises for its result.
abbrev pub Removed : ConnPool → ℕ → Option (Conn × ConnPool) → Type 0
Removed pool fd none = All (λ c. c.fd ≢ fd) (contents pool)
Removed pool fd (some (c, later)) =
    (c.fd ≡ fd) × PoolInv later × Perm (contents pool) (c ∷ contents later)

remove_by_fd_from-Removed :
    (spare : Conn) (pool : ConnPool) (fd i left : ℕ)
    → PoolInv pool
    → i + left ≡ pool.count
    → All (λ c. c.fd ≢ fd) (take i pool.items)
    → Removed pool fd (remove_by_fd_from spare pool fd i left)
unfolding remove_by_fd_from
remove_by_fd_from-Removed spare pool fd i zero h e p =
    let s : i ≡ pool.count = omega arith in
    subst (λ n. All (λ c. c.fd ≢ fd) (take n pool.items)) s p
remove_by_fd_from-Removed spare pool fd i (suc left) h e p =
    let a : pool.count ≤ pool.capacity = h.0 in
    let b : length pool.items ≡ pool.capacity = h.1 in
    let c = get_or pool.items i spare in
    elim (Bool-cases (c.fd == fd)) [
      | inl t ↦ rw t (
        ground (arith, t),
        move_last-PoolInv spare pool i h (omega arith),
        move_last-contents spare pool i h (omega arith),
      )
      | inr t ↦
          let ne : c.fd ≢ fd = ground (arith, t) in
          let s : suc i ≡ i + 1 = omega arith in
          rw t (
            remove_by_fd_from-Removed spare pool fd (i + 1) left h (omega arith) (
              subst (λ n. All (λ c. c.fd ≢ fd) (take n pool.items)) s
                (subst (All (λ c. c.fd ≢ fd)) (sym (take_snoc pool.items i spare (omega arith)))
                  (All-snoc (λ c. c.fd ≢ fd) (take i pool.items) c p ne))))
    ]

-- In a well-formed pool, `pool_remove_by_fd` takes out one connection with the given descriptor and
-- leaves all others, as a bag, in a well-formed pool; where it finds none, none is there. What a
-- slot out of range would read does not matter.
pub pool_remove_by_fd-Removed :
    (spare : Conn) (pool : ConnPool) (fd : ℕ)
    → PoolInv pool
    → Removed pool fd (pool_remove_by_fd spare pool fd)
unfolding pool_remove_by_fd
pool_remove_by_fd-Removed spare pool fd h =
    remove_by_fd_from-Removed spare pool fd 0 pool.count h (omega arith) tt
