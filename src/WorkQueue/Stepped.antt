-- ===== src/WorkQueue/Stepped.antt =====
-- A step on a queue that was taken, and the list that the queue then holds.
use celeritas.Prelude.{
  ◌≡◌, ◌⊎◌, inl, inr, refl, sym, ◌∙◌, ap, subst, Bool, true, false, if◌then◌else◌, Bool-cases, ◌==◌,
  some, List, [], ◌∷◌, ◌++◌, arith,
}
use mathlib.Core.Option.{some-injective}
use celeritas.Types.{Conn}
use celeritas.WorkQueue.{
  WorkQueue, queue_push, queue_pop, queue_trypop, at_shutdown, waits, is_empty, popped,
}
use celeritas.WorkQueue.Fifo.{Represents, queue_push-Represents, queue_pop-nil, queue_pop-cons}
use celeritas.WorkQueue.Interleaving.{popped-injective, not-popped}

pub pushed-Represents :
    (q : WorkQueue) (cs : List Conn) (c : Conn) (later : WorkQueue)
    → Represents q cs
    → queue_push q c ≡ some later
    → Represents later (cs ++ c ∷ [])
pushed-Represents q cs c later r e = elim (queue_push-Represents q cs c r) [
  | inl (_, full) ↦ absurd (ground arith)
  | inr (_, (q', f, r', _, _)) ↦
      subst (λ x. Represents x (cs ++ c ∷ [])) (some-injective _ _ (sym f ∙ e)) r'
]

-- The connection that was read was the oldest.
taken-Represents :
    (c d : Conn) (rest : List Conn) (q later : WorkQueue)
    → Represents q rest
    → popped (some d) q ≡ popped (some c) later
    → (cs : List Conn) × (d ∷ rest ≡ c ∷ cs) × Represents later cs
taken-Represents c d rest q later r e =
    let (same, at) = popped-injective (some d) (some c) q later e in
    (rest, ap (λ x. x ∷ rest) (some-injective _ _ same), subst (λ x. Represents x rest) at r)

pub popped-Represents :
    (q : WorkQueue) (cs : List Conn) (c : Conn) (later : WorkQueue)
    → Represents q cs
    → (queue_pop q ≡ popped (some c) later) ⊎ (queue_trypop q ≡ popped (some c) later)
    → (rest : List Conn) × (cs ≡ c ∷ rest) × Represents later rest
popped-Represents q [] c later r e = absurd (elim e [
  | inl p ↦
      not-popped q.shutting_down at_shutdown waits (some c) later refl (inl refl)
        (sym (queue_pop-nil q r).0 ∙ p)
  | inr p ↦
      not-popped q.shutting_down at_shutdown is_empty (some c) later refl (inr refl)
        (sym (queue_pop-nil q r).1 ∙ p)
])
popped-Represents q (d ∷ ds) c later r e =
    let (q', p, t, rest, _, _) = queue_pop-cons q d ds r in
    elim e [
      | inl x ↦ taken-Represents c d ds q' later rest (sym p ∙ x)
      | inr x ↦ taken-Represents c d ds q' later rest (sym t ∙ x)
    ]

pub stopped-Represents :
    (q : WorkQueue) (cs : List Conn)
    → Represents q cs
    → Represents (record q { shutting_down = true }) cs
stopped-Represents q cs r = record {
  storage = r.storage;
  head_in = r.head_in;
  tail_is = r.tail_is;
  count_is = r.count_is;
  count_le = r.count_le;
  holds = r.holds;
}

-- No push or pop changes the flag.
pub pushed-shutting_down :
    (q : WorkQueue) (c : Conn) (later : WorkQueue)
    → queue_push q c ≡ some later
    → later.shutting_down ≡ q.shutting_down
unfolding queue_push
pushed-shutting_down q c later = elim (Bool-cases (q.count == q.capacity)) [
  | inl t ↦ rw (t, queue_push) (λ e. absurd (ground (arith, e)))
  | inr t ↦ rw (t, queue_push) (λ e. ap (λ x. x.shutting_down) (sym (some-injective _ _ e)))
]

pub popped-shutting_down :
    (q : WorkQueue) (cs : List Conn) (c : Conn) (later : WorkQueue)
    → Represents q cs
    → queue_trypop q ≡ popped (some c) later
    → later.shutting_down ≡ q.shutting_down
popped-shutting_down q [] c later r e = absurd (
    not-popped q.shutting_down at_shutdown is_empty (some c) later refl (inr refl)
      (sym (queue_pop-nil q r).1 ∙ e))
popped-shutting_down q (d ∷ ds) c later r e =
    let (q', p, t, rest, _, flag) = queue_pop-cons q d ds r in
    let (_, at) = popped-injective (some d) (some c) q' later (sym t ∙ e) in
    subst (λ x. x.shutting_down ≡ q.shutting_down) at flag

-- Only a queue that shuts down answers so.
pub at_shutdown-shutting_down :
    (q : WorkQueue) (cs : List Conn)
    → Represents q cs
    → queue_trypop q ≡ at_shutdown
    → q.shutting_down ≡ true
at_shutdown-shutting_down q [] r e = by_flag q.shutting_down (sym (queue_pop-nil q r).1 ∙ e)
  where
    by_flag : (b : Bool) → (if b then at_shutdown else is_empty) ≡ at_shutdown → b ≡ true
    by_flag true e = refl
    by_flag false e = absurd (ground (arith, e))
at_shutdown-shutting_down q (d ∷ ds) r e =
    let (q', p, t, rest, _, _) = queue_pop-cons q d ds r in
    let f : popped (some d) q' ≡ at_shutdown = sym t ∙ e in absurd (ground (arith, f))
