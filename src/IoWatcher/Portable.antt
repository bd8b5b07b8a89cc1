-- ===== src/IoWatcher/Portable.antt =====
-- The two variants of src/io_watcher.c, for epoll and for kqueue, side by side.
use celeritas.Prelude.{
  ℕ, ◌≡◌, ◌≢◌, sym, ap, ◌∙◌, none, some, List, ◌⊎◌, inl, inr, Bool-cases, Option, arith, ◌==◌,
}
use mathlib.Core.Option.{some-injective}
use celeritas.IoWatcher.{
  Epoll, EpollEvent, IoEvent, io_watcher_add, io_watcher_remove, io_watcher_wait,
}
use celeritas.IoWatcher.Contract.{kept, IsWatcher}
use celeritas.IoWatcher.Kqueue
use celeritas.IoWatcher.Kqueue.{Kqueue}
use celeritas.IoWatcher.Kqueue.Once.{OneshotNotes, note_armed, kqueue-IsWatcher}
use celeritas.IoWatcher.Once.{OneshotEntries, entry_armed, epoll-IsWatcher}

eq-or-ne : (m n : ℕ) → (m ≡ n) ⊎ (m ≢ n)
eq-or-ne m n = elim (Bool-cases (m == n)) [
  | inl t ↦ inl (ground (arith, t))
  | inr t ↦ inr (ground (arith, t))
]

-- The functions of src/io_watcher.c keep the contract of a watcher with epoll and with kqueue. A
-- descriptor that `io_watcher_add` takes is armed with its userdata, one given to `io_watcher_remove`
-- is not armed, whatever the call returns, and neither touches another. `io_watcher_wait` reports at
-- most as many events as there is room for; each is of an armed descriptor, with its userdata,
-- which is then no longer armed, and every other stays as it is. So a registration is reported once.
pub io_watcher-IsWatcher :
    (kernel₁ : Epoll) (kernel₂ : Kqueue) (ignored : EpollEvent)
    → IsWatcher kernel₁.Watched
        (OneshotEntries kernel₁)
        (entry_armed kernel₁)
        (io_watcher_add kernel₁)
        (λ k fd. io_watcher_remove kernel₁ k fd ignored)
        (io_watcher_wait kernel₁)
      × IsWatcher kernel₂.Queue
          (OneshotNotes kernel₂)
          (note_armed kernel₂)
          (Kqueue.io_watcher_add kernel₂)
          (Kqueue.io_watcher_remove kernel₂)
          (Kqueue.io_watcher_wait kernel₂)
io_watcher-IsWatcher kernel₁ kernel₂ ignored =
    (epoll-IsWatcher kernel₁ ignored, kqueue-IsWatcher kernel₂)

module _ {K₁ K₂ : Type 0} {Valid₁ : K₁ → Type 0} {Valid₂ : K₂ → Type 0} {armed₁ : K₁ → ℕ → Option ℕ}
    {armed₂ : K₂ → ℕ → Option ℕ} {add₁ : K₁ → ℕ → ℕ → Option K₁} {add₂ : K₂ → ℕ → ℕ → Option K₂}
    {remove₁ : K₁ → ℕ → Option K₁} {remove₂ : K₂ → ℕ → Option K₂}
    {wait₁ : K₁ → ℕ → ℕ → Option (List IoEvent × K₁)}
    {wait₂ : K₂ → ℕ → ℕ → Option (List IoEvent × K₂)}
    (w₁ : IsWatcher K₁ Valid₁ armed₁ add₁ remove₁ wait₁)
    (w₂ : IsWatcher K₂ Valid₂ armed₂ add₂ remove₂ wait₂) where
  -- Two watchers were given the same calls, with each descriptor as its own userdata, and have
  -- reported the same events. A removal may have failed with either.
  pub data Alike : K₁ → K₂ → Type 0 where
    begin :
        {k₁ : K₁} {k₂ : K₂}
        → Valid₁ k₁
        → Valid₂ k₂
        → ((fd : ℕ) → armed₁ k₁ fd ≡ none)
        → ((fd : ℕ) → armed₂ k₂ fd ≡ none)
        → Alike k₁ k₂
    add :
        {k₁ : K₁} {k₂ : K₂} (fd : ℕ) (k₁' : K₁) (k₂' : K₂)
        → Alike k₁ k₂
        → add₁ k₁ fd fd ≡ some k₁'
        → add₂ k₂ fd fd ≡ some k₂'
        → Alike k₁' k₂'
    remove :
        {k₁ : K₁} {k₂ : K₂} (fd : ℕ)
        → Alike k₁ k₂
        → Alike (kept k₁ (remove₁ k₁ fd)) (kept k₂ (remove₂ k₂ fd))
    wait :
        {k₁ : K₁} {k₂ : K₂} (max_events timeout : ℕ) (events : List IoEvent) (k₁' : K₁) (k₂' : K₂)
        → Alike k₁ k₂
        → wait₁ k₁ max_events timeout ≡ some (events, k₁')
        → wait₂ k₂ max_events timeout ≡ some (events, k₂')
        → Alike k₁' k₂'

  -- The invariant of two such watchers.
  record Both (k₁ : K₁) (k₂ : K₂) : Type 0 where
    valid₁ : Valid₁ k₁
    valid₂ : Valid₂ k₂
    own : (fd userdata : ℕ) → armed₁ k₁ fd ≡ some userdata → userdata ≡ fd
    agree : (fd : ℕ) → armed₁ k₁ fd ≡ armed₂ k₂ fd

  own₂ :
      (k₁ : K₁) (k₂ : K₂)
      → Both k₁ k₂
      → (fd userdata : ℕ) → armed₂ k₂ fd ≡ some userdata
      → userdata ≡ fd
  own₂ k₁ k₂ b fd userdata h = b.own fd userdata (b.agree fd ∙ h)

  add-Both :
      (k₁ : K₁) (k₂ : K₂) (fd : ℕ) (k₁' : K₁) (k₂' : K₂)
      → Both k₁ k₂
      → add₁ k₁ fd fd ≡ some k₁'
      → add₂ k₂ fd fd ≡ some k₂'
      → Both k₁' k₂'
  add-Both k₁ k₂ fd k₁' k₂' b e₁ e₂ =
      let (here₁, others₁) = w₁.add_arms k₁ fd fd k₁' e₁ in
      let (here₂, others₂) = w₂.add_arms k₂ fd fd k₂' e₂ in
      record {
        valid₁ = w₁.add_valid k₁ fd fd k₁' b.valid₁ e₁;
        valid₂ = w₂.add_valid k₂ fd fd k₂' b.valid₂ e₂;
        own = λ n userdata h. elim (eq-or-ne n fd) [
          | inl same ↦ some-injective _ _ (sym h ∙ ap (armed₁ k₁') same ∙ here₁) ∙ sym same
          | inr differ ↦ b.own n userdata (sym (others₁ n differ) ∙ h)
        ];
        agree = λ n. elim (eq-or-ne n fd) [
          | inl same ↦ ap (armed₁ k₁') same ∙ here₁ ∙ sym here₂ ∙ sym (ap (armed₂ k₂') same)
          | inr differ ↦ others₁ n differ ∙ b.agree n ∙ sym (others₂ n differ)
        ];
      }

  remove-Both :
      (k₁ : K₁) (k₂ : K₂) (fd : ℕ)
      → Both k₁ k₂
      → Both (kept k₁ (remove₁ k₁ fd)) (kept k₂ (remove₂ k₂ fd))
  remove-Both k₁ k₂ fd b =
      let k₁' = kept k₁ (remove₁ k₁ fd) in
      let k₂' = kept k₂ (remove₂ k₂ fd) in
      let (here₁, others₁) = w₁.remove_disarms k₁ fd in
      let (here₂, others₂) = w₂.remove_disarms k₂ fd in
      record {
        valid₁ = w₁.remove_valid k₁ fd b.valid₁;
        valid₂ = w₂.remove_valid k₂ fd b.valid₂;
        own = λ n userdata h. elim (eq-or-ne n fd) [
          | inl same ↦
              let gone : some userdata ≡ none = sym h ∙ ap (armed₁ k₁') same ∙ here₁ in
              absurd (ground (arith, gone))
          | inr differ ↦ b.own n userdata (sym (others₁ n differ) ∙ h)
        ];
        agree = λ n. elim (eq-or-ne n fd) [
          | inl same ↦ ap (armed₁ k₁') same ∙ here₁ ∙ sym here₂ ∙ sym (ap (armed₂ k₂') same)
          | inr differ ↦ others₁ n differ ∙ b.agree n ∙ sym (others₂ n differ)
        ];
      }

  wait-Both :
      (k₁ : K₁) (k₂ : K₂) (n t : ℕ) (events : List IoEvent) (k₁' : K₁) (k₂' : K₂)
      → Both k₁ k₂
      → wait₁ k₁ n t ≡ some (events, k₁')
      → wait₂ k₂ n t ≡ some (events, k₂')
      → Both k₁' k₂'
  wait-Both k₁ k₂ n t events k₁' k₂' b e₁ e₂ = record {
    valid₁ = w₁.wait_valid k₁ n t events k₁' b.valid₁ e₁;
    valid₂ = w₂.wait_valid k₂ n t events k₂' b.valid₂ e₂;
    own = λ fd userdata h. elim (w₁.wait_keeps k₁ n t events k₁' fd b.valid₁ e₁) [
      | inl p ↦ b.own fd userdata (sym p ∙ h)
      | inr (event, m, was, off) ↦
          let gone : some userdata ≡ none = sym h ∙ off in absurd (ground (arith, gone))
    ];
    agree = λ fd. elim (w₁.wait_keeps k₁ n t events k₁' fd b.valid₁ e₁) [
      | inl p ↦ elim (w₂.wait_keeps k₂ n t events k₂' fd b.valid₂ e₂) [
        | inl q ↦ p ∙ b.agree fd ∙ sym q
        | inr (event, m, was, off) ↦
            let (fd', at, off') = w₁.wait_reports k₁ n t events k₁' event b.valid₁ e₁ m in
            let same : fd' ≡ fd =
              sym (b.own fd' event.userdata at) ∙ own₂ k₁ k₂ b fd event.userdata was in
            sym (ap (armed₁ k₁') same) ∙ off' ∙ sym off
      ]
      | inr (event, m, was, off) ↦
          let (fd', at, off') = w₂.wait_reports k₂ n t events k₂' event b.valid₂ e₂ m in
          let same : fd' ≡ fd =
            sym (own₂ k₁ k₂ b fd' event.userdata at) ∙ b.own fd event.userdata was in
          off ∙ sym off' ∙ ap (armed₂ k₂') same
    ];
  }

  Alike-Both : {k₁ : K₁} {k₂ : K₂} → Alike k₁ k₂ → Both k₁ k₂
  Alike-Both (begin v₁ v₂ n₁ n₂) = record {
    valid₁ = v₁;
    valid₂ = v₂;
    own = λ fd userdata h.
        let gone : some userdata ≡ none = sym h ∙ n₁ fd in absurd (ground (arith, gone));
    agree = λ fd. n₁ fd ∙ sym (n₂ fd);
  }
  Alike-Both (add {k₁} {k₂} fd k₁' k₂' a e₁ e₂) = add-Both k₁ k₂ fd k₁' k₂' (Alike-Both a) e₁ e₂
  Alike-Both (remove {k₁} {k₂} fd a) = remove-Both k₁ k₂ fd (Alike-Both a)
  Alike-Both (wait {k₁} {k₂} n t events k₁' k₂' a e₁ e₂) =
      wait-Both k₁ k₂ n t events k₁' k₂' (Alike-Both a) e₁ e₂

-- Started empty and given the same successful registrations of descriptors, the same removals, failed
-- ones too, and waits that report the same events, the variants for epoll and for kqueue have the same
-- descriptors armed, with the same userdata.
pub variants-agree :
    (kernel₁ : Epoll) (kernel₂ : Kqueue) (ignored : EpollEvent) (k₁ : kernel₁.Watched)
    (k₂ : kernel₂.Queue)
    → Alike (epoll-IsWatcher kernel₁ ignored) (kqueue-IsWatcher kernel₂) k₁ k₂
    → (fd : ℕ) → entry_armed kernel₁ k₁ fd ≡ note_armed kernel₂ k₂ fd
variants-agree kernel₁ kernel₂ ignored k₁ k₂ a =
    (Alike-Both (epoll-IsWatcher kernel₁ ignored) (kqueue-IsWatcher kernel₂) a).agree
