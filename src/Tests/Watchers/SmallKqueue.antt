-- ===== src/Tests/Watchers/SmallKqueue.antt =====
-- A kqueue in which only one descriptor is ever ready.
use celeritas.Prelude.{
  ℕ, zero, suc, ◌≤◌, ◌≡◌, refl, ap, ◌∙◌, subst, Bool, true, false, Option, none, some, List, [],
  ◌∷◌, ◌==◌, arith, ◌⊎◌, inl, inr, length, bit_and, bit_or, Bool-cases,
}
use mathlib.Core.List.{Memᴰ}
use mathlib.Core.List.Memᴰ
use mathlib.Core.Option.{some-injective}
use celeritas.IoWatcher.Kqueue.{Kqueue, Kevent, ev_add, ev_delete, ev_oneshot}
use celeritas.Tests.{put, Put, put-Put}

-- A table of read filters; only 7 is ever ready.
abbrev pub Notes : Type 0
Notes = ℕ → Option Kevent

abbrev pub change_by : Bool → Notes → Kevent → Option Notes
change_by true k e = elim (k e.ident) [ none ↦ none | some old ↦ some (put k e.ident none) ]
change_by false k e = some (put k e.ident (some e))

abbrev pub change : Notes → Kevent → Option Notes
change k e = change_by (bit_and e.flags (bit_or ev_add ev_delete) == ev_delete) k e

abbrev pub fire_note : Notes → Option Kevent → List Kevent × Notes
fire_note k none = ([], k)
fire_note k (some e) = (e ∷ [], put k 7 none)

abbrev pub collect : Notes → ℕ → ℕ → ℕ → Option (List Kevent × Notes)
collect k zero sec nsec = none
collect k (suc n) sec nsec = some (fire_note k (k 7))

pub change-add :
    (k : Notes) (e : Kevent) (k' : Notes)
    → bit_and e.flags (bit_or ev_add ev_delete) ≡ ev_add
    → change k e ≡ some k'
    → Put k e.ident (some e) k'
change-add k e k' h =
    rw h (λ f. subst (Put k e.ident (some e)) (some-injective _ _ f) (put-Put k e.ident (some e)))

when_noted :
    (k new k' : Notes) (o : Option Kevent)
    → elim o [ none ↦ none | some old ↦ some new ] ≡ some k'
    → new ≡ k'
when_noted k new k' none d = absurd (ground arith)
when_noted k new k' (some old) d = some-injective _ _ d

when_not_noted :
    (k new : Notes) (o : Option Kevent)
    → elim o [ none ↦ none | some old ↦ some new ] ≡ none
    → o ≡ none
when_not_noted k new none d = refl
when_not_noted k new (some old) d = absurd (ground arith)

pub change-delete :
    (k : Notes) (e : Kevent) (k' : Notes)
    → bit_and e.flags (bit_or ev_add ev_delete) ≡ ev_delete
    → change k e ≡ some k'
    → Put k e.ident none k'
change-delete k e k' h = rw h (λ f.
    subst (Put k e.ident none) (when_noted k (put k e.ident none) k' (k e.ident) f)
      (put-Put k e.ident none))

pub change-delete_failed :
    (k : Notes) (e : Kevent)
    → bit_and e.flags (bit_or ev_add ev_delete) ≡ ev_delete
    → change k e ≡ none
    → k e.ident ≡ none
change-delete_failed k e h = rw h (when_not_noted k (put k e.ident none) (k e.ident))

abbrev pub NoteOk : Notes → List Kevent × Notes → Type 0
NoteOk k p =
    (length p.0 ≤ 1)
    × ((ev : Kevent)
        → Memᴰ ev p.0
        → (fd : ℕ) × (e : Kevent) × (k fd ≡ some e)
          × (ev.udata ≡ e.udata)
          × (bit_and e.flags ev_oneshot ≡ ev_oneshot → p.1 fd ≡ none))
    × ((fd : ℕ)
        → (p.1 fd ≡ k fd)
          ⊎ ((ev : Kevent) × (e : Kevent) × Memᴰ ev p.0
              × (k fd ≡ some e)
              × (ev.udata ≡ e.udata)
              × (p.1 fd ≡ none)))

fire_note-NoteOk : (k : Notes) (o : Option Kevent) → k 7 ≡ o → NoteOk k (fire_note k o)
fire_note-NoteOk k none there = (omega arith, λ ev m. absurd (Memᴰ.not-nil m), λ fd. inl refl)
fire_note-NoteOk k (some e) there = (
  omega arith,
  λ ev m. (
    7,
    e,
    there,
    elim (Memᴰ.cases_cons m) [
      | inl same ↦ ap (λ x. x.udata) same
      | inr m' ↦ absurd (Memᴰ.not-nil m')
    ],
    λ once. refl,
  ),
  λ fd. elim (Bool-cases (fd == 7)) [
    | inl t ↦
        let same : fd ≡ 7 = ground (arith, t) in
        inr (e, e, Memᴰ.head refl, ap k same ∙ there, refl, rw t refl)
    | inr t ↦ inl (rw t refl)
  ],
)

pub collect-NoteOk :
    (k : Notes) (n sec nsec : ℕ) (list : List Kevent) (k' : Notes)
    → collect k n sec nsec ≡ some (list, k')
    → NoteOk k (list, k') × (1 ≤ n)
collect-NoteOk k zero sec nsec list k' e = absurd (ground arith)
collect-NoteOk k (suc n) sec nsec list k' e =
    (subst (NoteOk k) (some-injective _ _ e) (fire_note-NoteOk k (k 7) refl), omega arith)

abbrev pub a_kqueue : Kqueue
a_kqueue = record {
  Queue = Notes;
  knote = λ k fd. k fd;
  change = change;
  collect = collect;
  add_done = λ k e k' reads. change-add k e k';
  delete_done = λ k e k' reads. change-delete k e k';
  delete_failed = λ k e reads. change-delete_failed k e;
  collect_fits = λ k n sec nsec list k' e.
      let (ok, room) = collect-NoteOk k n sec nsec list k' e in omega (arith, ok.0, room);
  collect_reports = λ k n sec nsec list k' ev e. (collect-NoteOk k n sec nsec list k' e).0.1 ev;
  collect_keeps = λ k n sec nsec list k' fd e. (collect-NoteOk k n sec nsec list k' e).0.2 fd;
}
