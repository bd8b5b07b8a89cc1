-- ===== src/WaitRoom/Drain.antt =====
-- When the drain of the wait queue ends, and when it does not.
use celeritas.Prelude.{
  ℕ, zero, suc, ◌<◌, ◌≡◌, refl, Bool, true, false, none, some, List, [], ◌∷◌, length, arith, ap,
  ◌∙◌, if◌then◌else◌,
}
use celeritas.Types.{Conn}
use celeritas.WorkQueue.{WorkQueue, at_shutdown, is_empty, queue_trypop}
use celeritas.WorkQueue.Fifo.{Represents, queue_pop-nil, queue_pop-cons}
use celeritas.WaitRoom.{Room, Drained, place, drain}

-- All connections are placed in turn.
abbrev pub place_all : Conn → (ℕ → Bool) → Room → List Conn → Room
place_all spare registers room [] = room
place_all spare registers room (c ∷ cs) =
    place_all spare registers (place spare registers room c) cs

-- While the server runs, draining a queue that holds `cs` ends within one round more than that: the
-- queue is empty, and the connections were placed in the order in which they were pushed.
pub drain-place_all :
    (spare : Conn) (registers : ℕ → Bool) (fuel : ℕ) (q : WorkQueue) (cs : List Conn) (room : Room)
    (conn : Conn)
    → Represents q cs
    → q.shutting_down ≡ false
    → length cs < fuel
    → (out : Drained) × (drain spare registers fuel q room conn ≡ some out)
      × Represents out.queue []
      × (out.room ≡ place_all spare registers room cs)
unfolding drain
drain-place_all spare registers zero q cs room conn r s f = absurd (omega arith)
drain-place_all spare registers (suc fuel) q [] room conn r s f =
    let e : queue_trypop q ≡ is_empty =
      (queue_pop-nil q r).1 ∙ ap (λ b. if b then at_shutdown else is_empty) s in
    (record { queue = q; room = room }, rw (e, drain) refl, r, refl)
drain-place_all spare registers (suc fuel) q (c ∷ cs) room conn r s f =
    let (later, p, t, rest, k, d) = queue_pop-cons q c cs r in
    let (out, e, v, w) =
      drain-place_all spare registers fuel later cs (place spare registers room c) c rest (d ∙ s)
        (omega arith) in
    (out, rw (t, drain) e, v, w)

-- At shutdown the drain of an empty queue does not end, with any fuel.
pub drain-spins :
    (spare : Conn) (registers : ℕ → Bool) (fuel : ℕ) (q : WorkQueue) (room : Room) (conn : Conn)
    → Represents q []
    → q.shutting_down ≡ true
    → drain spare registers fuel q room conn ≡ none
unfolding drain
drain-spins spare registers zero q room conn r s = refl
drain-spins spare registers (suc fuel) q room conn r s =
    let e : queue_trypop q ≡ at_shutdown =
      (queue_pop-nil q r).1 ∙ ap (λ b. if b then at_shutdown else is_empty) s in
    rw (e, drain) (drain-spins spare registers fuel q (place spare registers room conn) conn r s)
