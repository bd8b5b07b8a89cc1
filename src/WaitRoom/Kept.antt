-- ===== src/WaitRoom/Kept.antt =====
-- What the steps of the wait room do to its connections.
use celeritas.Prelude.{
  ℕ, ◌+◌, ◌≡◌, ◌≢◌, inl, inr, refl, ap, ◌∙◌, Bool, none, List, [], ◌∷◌, ◌++◌, ◌==◌, leb,
  if◌then◌else◌, arith, All, Bool-cases, Option-cases, subst,
}
use celeritas.Types.{Conn}
use celeritas.ConnPool.{ConnPool, pool_add, pool_remove_by_fd}
use celeritas.ConnPool.Bag.{
  contents, PoolInv, Removed, pool_add-contents, pool_remove_by_fd-Removed,
}
use celeritas.WaitRoom.{Room, unplace, place}
use celeritas.WaitRoom.Tally.{one_if, tally, tally-append, tally-Perm}

-- How often `fd` stands in the pool and among the closed connections.
abbrev pub owned : ℕ → Room → ℕ
owned fd room = tally fd (contents room.pool) + tally fd room.closed

-- `later` owns the connection `c` beside those of `room`.
abbrev pub Kept : Room → Conn → Room → Type 0
Kept room c later = PoolInv later.pool × ((fd : ℕ) → owned fd later ≡ owned fd room + one_if fd c)

pub tally-snoc :
    (fd : ℕ) (cs : List Conn) (c : Conn) → tally fd (cs ++ c ∷ []) ≡ tally fd cs + one_if fd c
tally-snoc fd cs c =
    let e : tally fd (cs ++ c ∷ []) ≡ tally fd cs + tally fd (c ∷ []) =
      tally-append fd cs (c ∷ []) in
    omega arith

pub one_if-fd : (fd : ℕ) (c d : Conn) → c.fd ≡ d.fd → one_if fd c ≡ one_if fd d
one_if-fd fd c d e = ap (λ n. if n == fd then 1 else 0) e

not-All-snoc : (cs : List Conn) (c : Conn) → All (λ d. d.fd ≢ c.fd) (cs ++ c ∷ []) → ⊥
not-All-snoc [] c a = a.0 refl
not-All-snoc (d ∷ ds) c a = not-All-snoc ds c a.1

-- The connection that was just put in is the one that is lost, up to its descriptor.
unplace-tally :
    (spare : Conn) (registers : ℕ → Bool) (pool later : ConnPool) (c : Conn)
    → PoolInv later
    → contents later ≡ contents pool ++ c ∷ []
    → PoolInv (unplace spare registers later c)
      × ((fd : ℕ)
          → tally fd (contents (unplace spare registers later c)) ≡ tally fd (contents pool))
unfolding unplace
unplace-tally spare registers pool later c h e =
    elim (Option-cases (pool_remove_by_fd spare later c.fd)) [
      | inl n ↦
          let r = subst (Removed later c.fd) n (pool_remove_by_fd-Removed spare later c.fd h) in
          absurd (not-All-snoc (contents pool) c (subst (All (λ d. d.fd ≢ c.fd)) e r))
      | inr ((d, rest), s) ↦
          let (same, inv, p) =
            subst (Removed later c.fd) s (pool_remove_by_fd-Removed spare later c.fd h) in
          rw (s, unplace)
            (
              inv,
              λ fd.
                  let t : tally fd (contents later) ≡ one_if fd d + tally fd (contents rest) =
                    tally-Perm fd p in
                  let u : tally fd (contents later) ≡ tally fd (contents pool) + one_if fd c =
                    ap (tally fd) e ∙ tally-snoc fd (contents pool) c in
                  let v : one_if fd d ≡ one_if fd c = one_if-fd fd d c same in omega arith,
            )
    ]

-- The body of the drain loop keeps the connection that it is given, in the pool or as closed.
pub place-Kept :
    (spare : Conn) (registers : ℕ → Bool) (room : Room) (c : Conn)
    → PoolInv room.pool
    → Kept room c (place spare registers room c)
unfolding pool_add place
place-Kept spare registers room c h = elim (Bool-cases (leb room.pool.capacity room.pool.count)) [
  | inl t ↦
      let f : pool_add room.pool c ≡ none = rw (t, pool_add) refl in
      rw (f, place) (h, λ fd. let s = tally-snoc fd room.closed c in omega arith)
  | inr t ↦
      let (pool, f, inv, e) = pool_add-contents room.pool c h (ground (arith, t)) in
      elim (Bool-cases (registers c.fd)) [
        | inl g ↦
            rw (f, place)
              (rw g (
                inv,
                λ fd.
                    let s : tally fd (contents pool) ≡ tally fd (contents room.pool) + one_if fd c =
                      ap (tally fd) e ∙ tally-snoc fd (contents room.pool) c in
                    omega arith,
              ))
        | inr g ↦
            let (inv', same) = unplace-tally spare registers room.pool pool c inv e in
            rw (f, place)
              (rw g (
                inv',
                λ fd.
                    let s : tally fd (room.closed ++ c ∷ []) ≡ tally fd room.closed + one_if fd c =
                      tally-snoc fd room.closed c in
                    let u = same fd in omega arith,
              ))
      ]
]
