-- ===== src/Slots.antt =====
-- Rings of slots: an array whose slots are gone through in order, from the last back to the first.
use native.Mathlib.Nat.{mod-eq_of_lt, mod_self}
use celeritas.Prelude.{
  ℕ, zero, suc, ◌+◌, ◌-◌, ◌%◌, ◌≤◌, ◌<◌, ◌≡◌, ◌≢◌, refl, some, List, [], ◌∷◌, ◌++◌, length,
  get_elem?, set, if◌then◌else◌, arith, ap, ◌∙◌, sym, Bool-cases, inl, inr, ltb, ltb→lt,
  ltb-false→le, get_elem?-set_self, get_elem?-set_ne,
}

-- The slot behind slot `i` of a ring of `size`.
abbrev pub succ_slot : ℕ → ℕ → ℕ
succ_slot size i = (i + 1) % size

-- The slot `n` steps behind slot `h`.
abbrev pub slot_after : ℕ → ℕ → ℕ → ℕ
slot_after size h zero = h
slot_after size h (suc n) = slot_after size (succ_slot size h) n

-- `n` slots from slot `h` on hold these elements.
abbrev pub Holds {ℓ} : {A : Type ℓ} → List A → ℕ → ℕ → List A → Type ℓ
Holds buf size h [] = Unit
Holds buf size h (c ∷ cs) = (get_elem? buf h ≡ some c) × Holds buf size (succ_slot size h) cs

pub succ_slot_eq :
    (size h : ℕ) → h < size → succ_slot size h ≡ (if ltb (h + 1) size then h + 1 else 0)
succ_slot_eq size h hh = elim (Bool-cases (ltb (h + 1) size)) [
  | inl t ↦ rw t (mod-eq_of_lt (ltb→lt (h + 1) size t))
  | inr f ↦
      let e : h + 1 ≡ size = omega (arith, ltb-false→le (h + 1) size f) in
      rw f (rw e (mod_self size))
]

pub succ_slot-lt : (size h : ℕ) → h < size → succ_slot size h < size
succ_slot-lt size h hh = ground (arith, succ_slot_eq size h hh)

-- Where a walk from `h` of at most one round ends.
pub slot_after_eq :
    (size n h : ℕ)
    → h < size
    → n ≤ size
    → slot_after size h n ≡ (if ltb (h + n) size then h + n else h + n - size)
slot_after_eq size zero h hh hn = ground arith
slot_after_eq size (suc n) h hh hn =
    ground (
      arith,
      succ_slot_eq size h hh,
      succ_slot-lt size h hh,
      slot_after_eq size n (succ_slot size h),
    )

pub slot_after-lt : (size n h : ℕ) → h < size → n ≤ size → slot_after size h n < size
slot_after-lt size n h hh hn = ground (arith, slot_after_eq size n h hh hn)

pub slot_after-ne : (size n h : ℕ) → h < size → suc n < size → slot_after size h (suc n) ≢ h
slot_after-ne size n h hh hn = ground (arith, slot_after_eq size (suc n) h hh)

-- One more slot on the far end.
pub slot_after_end :
    (size n h : ℕ) → slot_after size h (suc n) ≡ succ_slot size (slot_after size h n)
slot_after_end size zero h = refl
slot_after_end size (suc n) h = slot_after_end size n (succ_slot size h)

-- The free slot behind the last one takes an element, and the others keep theirs.
pub Holds-set {ℓ} :
    {A : Type ℓ} (buf : List A) (size h : ℕ) (cs : List A) (c : A)
    → size ≤ length buf
    → h < size
    → length cs < size
    → Holds buf size h cs
    → Holds (set buf (slot_after size h (length cs)) c) size h (cs ++ c ∷ [])
Holds-set buf size h [] c hs hh hn k = (get_elem?-set_self buf h c (omega arith), tt)
Holds-set buf size h (d ∷ ds) c hs hh hn k =
    let at = slot_after size h (suc (length ds)) in
    (
      get_elem?-set_ne buf at h c (slot_after-ne size (length ds) h hh (omega arith)) ∙ k.0,
      Holds-set buf size (succ_slot size h) ds c hs (succ_slot-lt size h hh) (omega arith) k.1,
    )

pub pushed_tail :
    (size h n t : ℕ) → t ≡ slot_after size h n → (t + 1) % size ≡ slot_after size h (n + 1)
pushed_tail size h n t e =
    let more : suc n ≡ n + 1 = omega arith in
    ap (succ_slot size) e ∙ sym (slot_after_end size n h) ∙ ap (slot_after size h) more

pub popped_tail :
    (size h n t : ℕ)
    → n ≢ 0
    → t ≡ slot_after size h n
    → t ≡ slot_after size (succ_slot size h) (n - 1)
popped_tail size h zero t ne e = absurd (ne refl)
popped_tail size h (suc n) t ne e =
    let less : n ≡ suc n - 1 = omega arith in e ∙ ap (slot_after size (succ_slot size h)) less
