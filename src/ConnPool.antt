-- ===== src/ConnPool.antt =====
-- The array of kept-alive connections in src/io_watcher.c (`conn_pool_t`), which only the wait room
-- thread touches.
pub mod Bag
pub mod Sweep
use celeritas.Prelude.{
  ℕ, zero, suc, ◌+◌, ◌-◌, ◌*◌, Bool, true, false, Option, none, some, List, [], ◌∷◌, ◌++◌, ltb, leb,
  ◌==◌, ◌||◌, ◌%◌, ◌^◌, if◌then◌else◌, get_or, set, take,
}
use celeritas.Types.{Conn}

-- `conn_pool_t`. `items` is the memory of the array; the first `count` slots are in use.
pub record ConnPool : Type 0 where
  pub items : List Conn
  pub count : ℕ
  pub capacity : ℕ

-- `pool_init` over the memory that `malloc` gives; `none` is its failure.
unfoldable pub pool_init : Option (List Conn) → ℕ → Option ConnPool
pool_init none max_conns = none
pool_init (some memory) max_conns =
    some (record { items = memory; count = 0; capacity = max_conns })

-- `pool_add`; `none` is -1, for a full pool.
unfoldable pub pool_add : ConnPool → Conn → Option ConnPool
pool_add pool new_conn =
    if leb pool.capacity pool.count
    then none
    else some (record pool { items = set pool.items pool.count new_conn; count = pool.count + 1 })

module _ (spare : Conn) where
  -- The last slot is copied over slot `i`, and given up. `spare` stands for what a slot out of range
  -- would read; the invariant rules that out.
  unfoldable pub move_last : ConnPool → ℕ → ConnPool
  move_last pool i = record pool {
    items = set pool.items i (get_or pool.items (pool.count - 1) spare);
    count = pool.count - 1;
  }

  -- `pool_remove_at`
  unfoldable pub pool_remove_at : ConnPool → ℕ → ConnPool
  pool_remove_at pool index = if leb pool.count index then pool else move_last pool index

  -- The loop of `pool_remove_by_fd`, with `left` slots to look at from slot `i` on.
  unfoldable pub remove_by_fd_from : ConnPool → ℕ → ℕ → ℕ → Option (Conn × ConnPool)
  remove_by_fd_from pool fd i zero = none
  remove_by_fd_from pool fd i (suc left) =
      let conn = get_or pool.items i spare in
      let later = remove_by_fd_from pool fd (i + 1) left in
      if conn.fd == fd then some (conn, move_last pool i) else later

  -- `pool_remove_by_fd`: the connection copied out and the pool, or `none` for 0.
  unfoldable pub pool_remove_by_fd : ConnPool → ℕ → Option (Conn × ConnPool)
  pool_remove_by_fd pool fd = remove_by_fd_from pool fd 0 pool.count

  -- The loop of `pool_sweep_expired` at slot `i`, on fuel: the pool, and the connections closed, in
  -- order. `none` means that the fuel ran out.
  unfoldable pub sweep_from : ℕ → ConnPool → ℕ → ℕ → List Conn → Option (ConnPool × List Conn)
  sweep_from zero pool now i closed = none
  sweep_from (suc fuel) pool now i closed =
      let conn = get_or pool.items i spare in
      let swept = sweep_from fuel (move_last pool i) now i (closed ++ conn ∷ []) in
      let kept = sweep_from fuel pool now (i + 1) closed in
      if ltb i pool.count
      then (if leb conn.keepalive_deadline now then swept else kept)
      else some (pool, closed)

  -- `pool_sweep_expired`: every expired connection is taken from the kernel's set and closed.
  unfoldable pub pool_sweep_expired : ConnPool → ℕ → Option (ConnPool × List Conn)
  pool_sweep_expired pool now = sweep_from (pool.count + 1) pool now 0 []

-- The smallest deadline among `m` and those of the next `left` slots.
unfoldable pub min_expiry : List Conn → ℕ → ℕ
min_expiry [] m = m
min_expiry (c ∷ cs) m =
    min_expiry cs (if ltb c.keepalive_deadline m then c.keepalive_deadline else m)

-- What `pool_nearest_timeout_ms` returns: -1, or a time; or the product does not fit an `int`, which C
-- leaves undefined.
pub data NearestMs : Type 0 where
  minus_one : NearestMs
  ms : ℕ → NearestMs
  overflow : NearestMs

-- `(int)(min_expiry - now)` as 32 bits, for times of 64 bits.
unfoldable pub int_diff : ℕ → ℕ → ℕ
int_diff min now = (min + 2 ^ 64 - now) % 2 ^ 32

-- The last two lines of `pool_nearest_timeout_ms`. A difference with its sign bit is below 0.
unfoldable pub to_ms : ℕ → NearestMs
to_ms diff =
    if diff == 0 || leb (2 ^ 31) diff
    then ms 0
    else if leb (2 ^ 31) (diff * 1000)
    then overflow
    else ms (diff * 1000)

-- `pool_nearest_timeout_ms`
unfoldable pub pool_nearest_timeout_ms : ConnPool → ℕ → NearestMs
pool_nearest_timeout_ms pool now = elim (take pool.count pool.items) [
  | [] ↦ minus_one
  | c ∷ cs ↦ to_ms (int_diff (min_expiry cs c.keepalive_deadline) now)
]
