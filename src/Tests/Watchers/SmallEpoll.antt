-- ===== src/Tests/Watchers/SmallEpoll.antt =====
-- An epoll in which only one descriptor is ever ready.
use celeritas.Prelude.{
  ℕ, zero, suc, ◌≤◌, ◌≡◌, ◌≢◌, refl, sym, ap, ◌∙◌, subst, Bool, true, false, Option, none, some,
  List, [], ◌∷◌, ◌==◌, arith, ◌⊎◌, inl, inr, length, bit_and, Bool-cases,
}
use mathlib.Core.List.{Memᴰ}
use mathlib.Core.List.Memᴰ
use mathlib.Core.Option.{some-injective}
use celeritas.IoWatcher.{
  Epoll, EpollEvent, CtlOp, CtlResult, done, failed, epoll_ctl_add, epoll_ctl_mod, epoll_ctl_del,
  epolloneshot,
}
use celeritas.Tests.{put, Put, put-Put}

-- A table of descriptors; only 7 is ever ready.
pub record Table (E : Type 0) : Type 0 where
  pub entries : ℕ → Option E
  pub on : ℕ → Bool

abbrev pub enter : Table EpollEvent → ℕ → EpollEvent → Table EpollEvent
enter k fd e = record { entries = put k.entries fd (some e); on = put k.on fd true }

abbrev pub ctl : Table EpollEvent → CtlOp → ℕ → EpollEvent → CtlResult (Table EpollEvent)
ctl k epoll_ctl_add fd e = elim (k.entries fd) [
  | none ↦ done (enter k fd e)
  | some old ↦ failed true
]
ctl k epoll_ctl_mod fd e = elim (k.entries fd) [
  | none ↦ failed false
  | some old ↦ done (enter k fd e)
]
ctl k epoll_ctl_del fd e = elim (k.entries fd) [
  | none ↦ failed false
  | some old ↦ done (record k { entries = put k.entries fd none })
]

abbrev table_of : Table EpollEvent → CtlResult (Table EpollEvent) → Table EpollEvent
table_of k (done k') = k'
table_of k (failed b) = k

abbrev pub fire : Table EpollEvent → Bool → Option EpollEvent → List EpollEvent × Table EpollEvent
fire k true (some e) = (e ∷ [], record k { on = put k.on 7 false })
fire k true none = ([], k)
fire k false o = ([], k)

-- A wait without room for an event is refused.
abbrev pub epoll_wait : Table EpollEvent → ℕ → ℕ → Option (List EpollEvent × Table EpollEvent)
epoll_wait k zero timeout = none
epoll_wait k (suc n) timeout = some (fire k (k.on 7) (k.entries 7))

-- What a call has done to the table, when it succeeds.
pub when_absent :
    (k new k' : Table EpollEvent) (o : Option EpollEvent)
    → elim o [ none ↦ done new | some old ↦ failed true ] ≡ done k'
    → new ≡ k'
when_absent k new k' none d = ap (table_of k) d
when_absent k new k' (some old) d = absurd (ground arith)

pub when_present :
    (k new k' : Table EpollEvent) (o : Option EpollEvent)
    → elim o [ none ↦ failed false | some old ↦ done new ] ≡ done k'
    → new ≡ k'
when_present k new k' none d = absurd (ground arith)
when_present k new k' (some old) d = ap (table_of k) d

pub when_failed :
    (k new : Table EpollEvent) (o : Option EpollEvent) (b : Bool)
    → elim o [ none ↦ failed false | some old ↦ done new ] ≡ failed b
    → o ≡ none
when_failed k new none b d = refl
when_failed k new (some old) b d = absurd (ground arith)

pub ctl_others :
    (k : Table EpollEvent) (op : CtlOp) (fd : ℕ) (e : EpollEvent) (k' : Table EpollEvent)
    (other : ℕ)
    → ctl k op fd e ≡ done k'
    → other ≢ fd
    → k'.on other ≡ k.on other
ctl_others k epoll_ctl_add fd e k' other d ne =
    let same = when_absent k (enter k fd e) k' (k.entries fd) d in
    ap (λ t. t.on other) (sym same) ∙ (put-Put k.on fd true).1 other ne
ctl_others k epoll_ctl_mod fd e k' other d ne =
    let same = when_present k (enter k fd e) k' (k.entries fd) d in
    ap (λ t. t.on other) (sym same) ∙ (put-Put k.on fd true).1 other ne
ctl_others k epoll_ctl_del fd e k' other d ne =
    let same = when_present k (record k { entries = put k.entries fd none }) k' (k.entries fd) d in
    ap (λ t. t.on other) (sym same)

abbrev pub FireOk : Table EpollEvent → List EpollEvent × Table EpollEvent → Type 0
FireOk k p =
    (length p.0 ≤ 1)
    × ((fd : ℕ) → p.1.entries fd ≡ k.entries fd)
    × ((ev : EpollEvent)
        → Memᴰ ev p.0
        → (fd : ℕ) × (e : EpollEvent) × (k.entries fd ≡ some e)
          × (ev.data_ptr ≡ e.data_ptr)
          × (k.on fd ≡ true)
          × (bit_and e.events epolloneshot ≡ epolloneshot → p.1.on fd ≡ false))
    × ((fd : ℕ)
        → (p.1.on fd ≡ k.on fd)
          ⊎ ((ev : EpollEvent) × (e : EpollEvent) × Memᴰ ev p.0
              × (k.entries fd ≡ some e)
              × (ev.data_ptr ≡ e.data_ptr)
              × (k.on fd ≡ true)
              × (p.1.on fd ≡ false)))

quiet-FireOk : (k : Table EpollEvent) → FireOk k ([], k)
quiet-FireOk k = (omega arith, λ fd. refl, λ ev m. absurd (Memᴰ.not-nil m), λ fd. inl refl)

fire-FireOk :
    (k : Table EpollEvent) (b : Bool) (o : Option EpollEvent)
    → k.on 7 ≡ b
    → k.entries 7 ≡ o
    → FireOk k (fire k b o)
fire-FireOk k false o on there = quiet-FireOk k
fire-FireOk k true none on there = quiet-FireOk k
fire-FireOk k true (some e) on there = (
  omega arith,
  λ fd. refl,
  λ ev m. (
    7,
    e,
    there,
    elim (Memᴰ.cases_cons m) [
      | inl same ↦ ap (λ x. x.data_ptr) same
      | inr m' ↦ absurd (Memᴰ.not-nil m')
    ],
    on,
    λ once. refl,
  ),
  λ fd. elim (Bool-cases (fd == 7)) [
    | inl t ↦
        let same : fd ≡ 7 = ground (arith, t) in
        inr (e, e, Memᴰ.head refl, ap k.entries same ∙ there, refl, ap k.on same ∙ on, rw t refl)
    | inr t ↦ inl (rw t refl)
  ],
)

pub epoll_wait-FireOk :
    (k : Table EpollEvent) (n timeout : ℕ) (list : List EpollEvent) (k' : Table EpollEvent)
    → epoll_wait k n timeout ≡ some (list, k')
    → FireOk k (list, k') × (1 ≤ n)
epoll_wait-FireOk k zero timeout list k' e = absurd (ground arith)
epoll_wait-FireOk k (suc n) timeout list k' e = (
  subst (FireOk k) (some-injective _ _ e) (fire-FireOk k (k.on 7) (k.entries 7) refl refl),
  omega arith,
)

pub enter-entries :
    (k k' : Table EpollEvent) (fd : ℕ) (e : EpollEvent)
    → enter k fd e ≡ k'
    → Put k.entries fd (some e) k'.entries
enter-entries k k' fd e same =
    subst (λ t. Put k.entries fd (some e) t.entries) same (put-Put k.entries fd (some e))

pub enter-on :
    (k k' : Table EpollEvent) (fd : ℕ) (e : EpollEvent) → enter k fd e ≡ k' → k'.on fd ≡ true
enter-on k k' fd e same = subst (λ t. t.on fd ≡ true) same (put-Put k.on fd true).0

abbrev pub a_kernel : Epoll
a_kernel = record {
  Watched = Table EpollEvent;
  entry = λ k fd. k.entries fd;
  enabled = λ k fd. k.on fd;
  epoll_ctl = ctl;
  epoll_wait = epoll_wait;
  add_done =
      λ k fd e k' d. enter-entries k k' fd e (when_absent k (enter k fd e) k' (k.entries fd) d);
  add_exists = λ k fd e old h. rw (h, ctl) refl;
  mod_done =
      λ k fd e k' d. enter-entries k k' fd e (when_present k (enter k fd e) k' (k.entries fd) d);
  mod_present = λ k fd e old h. (enter k fd e, rw (h, ctl) refl);
  del_done = λ k fd e k' d.
      let new = record k { entries = put k.entries fd none } in
      subst (λ t. Put k.entries fd none t.entries) (when_present k new k' (k.entries fd) d)
        (put-Put k.entries fd none);
  del_failed =
      λ k fd e b d. when_failed k (record k { entries = put k.entries fd none }) (k.entries fd) b d;
  add_enables =
      λ k fd e k' d. enter-on k k' fd e (when_absent k (enter k fd e) k' (k.entries fd) d);
  mod_enables =
      λ k fd e k' d. enter-on k k' fd e (when_present k (enter k fd e) k' (k.entries fd) d);
  ctl_others = ctl_others;
  wait_fits = λ k n timeout list k' e.
      let (ok, room) = epoll_wait-FireOk k n timeout list k' e in omega (arith, ok.0, room);
  wait_entries = λ k n timeout list k' fd e. (epoll_wait-FireOk k n timeout list k' e).0.1 fd;
  wait_reports = λ k n timeout list k' ev e. (epoll_wait-FireOk k n timeout list k' e).0.2 ev;
  wait_keeps = λ k n timeout list k' fd e. (epoll_wait-FireOk k n timeout list k' e).0.3 fd;
}
