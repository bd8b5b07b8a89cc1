-- ===== src/WorkQueue/Interleaving.antt =====
-- The operations of listeners, workers and the wait room on one queue, in any order.
use celeritas.Prelude.{
  ◌≢◌, ◌⊎◌, ◌≡◌, refl, Bool, true, Option, some, List, [], ◌∷◌, ◌++◌, map, ap, ◌∙◌, sym, inl, inr,
  arith, append_assoc, ◌<◌, ◌≤◌, length, ℕ, if◌then◌else◌, subst,
}
use mathlib.Core.List.{map-append}
use mathlib.Core.Option.{some-injective}
use celeritas.Types.{Conn}
use celeritas.WorkQueue.Fifo.{
  Represents, queue_push-Represents, queue_pop-nil, queue_pop-cons, queue_init-Represents,
}
use celeritas.WorkQueue.{
  WorkQueue, queue_init, queue_push, queue_pop, queue_trypop, Popped, waits, at_shutdown, is_empty,
  popped,
}

-- The queue `q` is reached from `q₀` by steps of any threads, in which `ins` were pushed and `outs`
-- popped, each in this order. A call that waits is no step. `shutdown` is the store of
-- `server_shutdown` to the flag.
pub data Reaches (start : WorkQueue) : List Conn → List (Option Conn) → WorkQueue → Type 0 where
  begin : Reaches start [] [] start
  push :
      {ins : List Conn} {outs : List (Option Conn)} {q q' : WorkQueue} (c : Conn)
      → Reaches start ins outs q
      → queue_push q c ≡ some q'
      → Reaches start (ins ++ c ∷ []) outs q'
  pop :
      {ins : List Conn} {outs : List (Option Conn)} {q q' : WorkQueue} (o : Option Conn)
      → Reaches start ins outs q
      → queue_pop q ≡ popped o q'
      → Reaches start ins (outs ++ o ∷ []) q'
  trypop :
      {ins : List Conn} {outs : List (Option Conn)} {q q' : WorkQueue} (o : Option Conn)
      → Reaches start ins outs q
      → queue_trypop q ≡ popped o q'
      → Reaches start ins (outs ++ o ∷ []) q'
  shutdown :
      {ins : List Conn} {outs : List (Option Conn)} {q : WorkQueue}
      → Reaches start ins outs q
      → Reaches start ins outs (record q { shutting_down = true })

-- What was pushed is what was popped and then what is in the queue.
pub record Accounts (ins : List Conn) (outs : List (Option Conn)) (q : WorkQueue) : Type 0 where
  pub inside : List Conn
  pub represents : Represents q inside
  pub in_order : map some ins ≡ outs ++ map some inside

push-Accounts :
    {ins : List Conn} {outs : List (Option Conn)} {q q' : WorkQueue} (c : Conn)
    → Accounts ins outs q
    → queue_push q c ≡ some q'
    → Accounts (ins ++ c ∷ []) outs q'
push-Accounts {ins} {outs} {q} {q'} c a e = elim (queue_push-Represents q a.inside c a.represents) [
  | inl (_, full) ↦ absurd (ground arith)
  | inr (_, (q2, f, r, _, _)) ↦ record {
    inside = a.inside ++ c ∷ [];
    represents = subst (λ x. Represents x (a.inside ++ c ∷ [])) (some-injective _ _ (sym f ∙ e)) r;
    in_order =
        map-append some ins (c ∷ [])
        ∙ ap (λ s. s ++ some c ∷ []) a.in_order
        ∙ append_assoc outs (map some a.inside) (some c ∷ [])
        ∙ ap (λ s. outs ++ s) (sym (map-append some a.inside (c ∷ [])));
  }
]

pub popped-injective :
    (a b : Option Conn) (q r : WorkQueue) → popped a q ≡ popped b r → (a ≡ b) × (q ≡ r)
popped-injective a b q r e = (cc, cc)

-- A pop that reads the oldest connection.
popped-Accounts :
    (outs : List (Option Conn)) {ins : List Conn} {q' : WorkQueue} (c : Conn) (cs : List Conn)
    (q2 : WorkQueue) (o : Option Conn)
    → map some ins ≡ outs ++ (some c ∷ map some cs)
    → Represents q2 cs
    → popped (some c) q2 ≡ popped o q'
    → Accounts ins (outs ++ o ∷ []) q'
popped-Accounts outs {ins} {q'} c cs q2 o split r e =
    let (same, at) = popped-injective (some c) o q2 q' e in
    record {
      inside = cs;
      represents = subst (λ x. Represents x cs) at r;
      in_order =
          split
          ∙ ap (λ x. outs ++ (x ∷ map some cs)) same
          ∙ sym (append_assoc outs (o ∷ []) (map some cs));
    }

-- Nothing is read from an empty queue.
pub not-popped :
    (flag : Bool) (a b : Popped) (o : Option Conn) (q : WorkQueue)
    → (a ≡ at_shutdown)
    → (b ≡ waits) ⊎ (b ≡ is_empty)
    → (if flag then a else b) ≢ popped o q
not-popped flag a b o q h k e = ground arith

pop-Accounts :
    {ins : List Conn} {outs : List (Option Conn)} {q q' : WorkQueue} (o : Option Conn)
    → Accounts ins outs q
    → (queue_pop q ≡ popped o q') ⊎ (queue_trypop q ≡ popped o q')
    → Accounts ins (outs ++ o ∷ []) q'
pop-Accounts {ins} {outs} {q} {q'} o a e = from a.inside a.represents a.in_order
  where
    from :
        (cs : List Conn)
        → Represents q cs
        → map some ins ≡ outs ++ map some cs
        → Accounts ins (outs ++ o ∷ []) q'
    from [] r split = absurd (elim e [
      | inl p ↦
          not-popped q.shutting_down at_shutdown waits o q' refl (inl refl)
            (sym (queue_pop-nil q r).0 ∙ p)
      | inr p ↦
          not-popped q.shutting_down at_shutdown is_empty o q' refl (inr refl)
            (sym (queue_pop-nil q r).1 ∙ p)
    ])
    from (c ∷ cs) r split =
        let (q2, p, t, rest, _, _) = queue_pop-cons q c cs r in
        elim e [
          | inl x ↦ popped-Accounts outs c cs q2 o split rest (sym p ∙ x)
          | inr x ↦ popped-Accounts outs c cs q2 o split rest (sym t ∙ x)
        ]

Reaches-Accounts-from :
    {start q : WorkQueue} {ins : List Conn} {outs : List (Option Conn)}
    → Represents start []
    → Reaches start ins outs q
    → Accounts ins outs q
Reaches-Accounts-from s begin = record { inside = []; represents = s; in_order = refl }
Reaches-Accounts-from s (push c r e) = push-Accounts c (Reaches-Accounts-from s r) e
Reaches-Accounts-from s (pop o r e) = pop-Accounts o (Reaches-Accounts-from s r) (inl e)
Reaches-Accounts-from s (trypop o r e) = pop-Accounts o (Reaches-Accounts-from s r) (inr e)
Reaches-Accounts-from s (shutdown r) =
    let a = Reaches-Accounts-from s r in
    let v = a.represents in
    record {
      inside = a.inside;
      represents = record {
        storage = v.storage;
        head_in = v.head_in;
        tail_is = v.tail_is;
        count_is = v.count_is;
        count_le = v.count_le;
        holds = v.holds;
      };
      in_order = a.in_order;
    }

-- From `queue_init` over storage for a positive capacity, after any interleaving of pushes, pops and
-- the shutdown store, the queue represents a list of connections, and the connections pushed are
-- those popped, every one of them read from a slot that holds it, followed by that list: none is
-- lost, doubled or reordered.
pub Reaches-Accounts :
    (storage : List Conn) (capacity : ℕ) {start q : WorkQueue} {ins : List Conn}
    {outs : List (Option Conn)}
    → 0 < capacity
    → capacity ≤ length storage
    → queue_init (some storage) capacity ≡ some start
    → Reaches start ins outs q
    → Accounts ins outs q
Reaches-Accounts storage capacity pos fits e r =
    let (q0, f, v) = queue_init-Represents storage capacity pos fits in
    Reaches-Accounts-from (subst (λ x. Represents x []) (some-injective _ _ (sym f ∙ e)) v) r
