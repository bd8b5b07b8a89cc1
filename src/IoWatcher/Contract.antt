-- ===== src/IoWatcher/Contract.antt =====
-- What the wait room uses of a watcher, whatever the kernel's mechanism under it is.
use celeritas.Prelude.{
  ℕ, ◌≤◌, ◌≡◌, ◌≢◌, Option, none, some, List, length, ◌⊎◌, inl, inr, refl, sym, ◌∙◌, subst, ◌==◌,
  Bool-cases, arith,
}
use celeritas.IoWatcher.{IoEvent}
use mathlib.Core.List.{Memᴰ}

module _ {Kernel : Type 0} where
  -- The kernel after a call: a failed one, which is -1, has changed nothing.
  abbrev pub kept : Kernel → Option Kernel → Kernel
  kept k none = k
  kept k (some k') = k'

-- `armed k fd` is the userdata with which `fd` will be reported, if it is to be. `Valid` is the
-- invariant of a kernel state that only the three functions have changed.
pub record IsWatcher (Kernel : Type 0) (Valid : Kernel → Type 0) (armed : Kernel → ℕ → Option ℕ)
    (add : Kernel → ℕ → ℕ → Option Kernel) (remove : Kernel → ℕ → Option Kernel)
    (wait : Kernel → ℕ → ℕ → Option (List IoEvent × Kernel)) : Type 0 where
  pub add_valid :
      (k : Kernel) (fd userdata : ℕ) (k' : Kernel)
      → Valid k
      → add k fd userdata ≡ some k'
      → Valid k'
  pub add_arms :
      (k : Kernel) (fd userdata : ℕ) (k' : Kernel)
      → add k fd userdata ≡ some k'
      → (armed k' fd ≡ some userdata) × ((other : ℕ) → other ≢ fd → armed k' other ≡ armed k other)
  pub remove_valid : (k : Kernel) (fd : ℕ) → Valid k → Valid (kept k (remove k fd))
  pub remove_disarms :
      (k : Kernel) (fd : ℕ)
      → (armed (kept k (remove k fd)) fd ≡ none)
        × ((other : ℕ) → other ≢ fd → armed (kept k (remove k fd)) other ≡ armed k other)
  pub wait_valid :
      (k : Kernel) (max_events timeout : ℕ) (events : List IoEvent) (k' : Kernel)
      → Valid k
      → wait k max_events timeout ≡ some (events, k')
      → Valid k'
  pub wait_fits :
      (k : Kernel) (max_events timeout : ℕ) (events : List IoEvent) (k' : Kernel)
      → wait k max_events timeout ≡ some (events, k')
      → length events ≤ max_events
  pub wait_reports :
      (k : Kernel) (max_events timeout : ℕ) (events : List IoEvent) (k' : Kernel) (event : IoEvent)
      → Valid k
      → wait k max_events timeout ≡ some (events, k')
      → Memᴰ event events
      → (fd : ℕ) × (armed k fd ≡ some event.userdata) × (armed k' fd ≡ none)
  pub wait_keeps :
      (k : Kernel) (max_events timeout : ℕ) (events : List IoEvent) (k' : Kernel) (fd : ℕ)
      → Valid k
      → wait k max_events timeout ≡ some (events, k')
      → (armed k' fd ≡ armed k fd)
        ⊎ ((event : IoEvent) × Memᴰ event events
            × (armed k fd ≡ some event.userdata)
            × (armed k' fd ≡ none))

module _ {A : Type 0} where
  pub Option-cases : (o : Option A) → (o ≡ none) ⊎ ((a : A) × (o ≡ some a))
  Option-cases none = inl refl
  Option-cases (some a) = inr (a, refl)

module _ {E : Type 0} (P : E → Type 0) where
  -- Everything in a table of descriptors has the property.
  abbrev pub Every : (ℕ → Option E) → Type 0
  Every table = (fd : ℕ) (e : E) → table fd ≡ some e → P e

  pub changed-Every :
      (table later : ℕ → Option E) (fd : ℕ) (new : Option E)
      → (later fd ≡ new) × ((other : ℕ) → other ≢ fd → later other ≡ table other)
      → ((e : E) → new ≡ some e → P e)
      → Every table
      → Every later
  changed-Every table later fd new (here, others) new_ok ok n e f = elim (Bool-cases (n == fd)) [
    | inl t ↦
        let same : n ≡ fd = ground (arith, t) in
        new_ok e (sym here ∙ subst (λ i. later i ≡ some e) same f)
    | inr t ↦ let differ : n ≢ fd = ground (arith, t) in ok n e (sym (others n differ) ∙ f)
  ]
