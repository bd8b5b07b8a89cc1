-- ===== src/Listener/Pushed.antt =====
-- Which connections a listener hands to the workers.
use celeritas.Prelude.{
  ℕ, ◌≡◌, ◌<◌, ◌⊎◌, inl, inr, refl, sym, ap, ◌∙◌, Bool, true, false, none, some, List, [], ◌∷◌,
  ◌++◌, arith, Bool-cases, Option-cases, subst, ltb, if◌then◌else◌,
}
use mathlib.Core.Bool.{false≢true}
use mathlib.Core.Option.{some-injective}
use celeritas.Types.{Conn, proto_unknown}
use celeritas.Socket.Accept.{
  Peer, af_inet, af_inet6, other_family, AcceptAnswers, zero_conn, fill_peer, attach_tls,
  accept_connection,
}
use celeritas.WorkQueue.{WorkQueue}
use celeritas.WorkQueue.Fifo.{Represents, queue_push-Represents}
use celeritas.Listener.{
  ListenerRound, ends, sleeps, push_waits, pushed, push_conn, after_accept, listener_round,
}

-- A connection that a worker can serve: a descriptor that `accept` gave, of the listener's kind, with
-- an SSL object exactly when it is for TLS, and no protocol or deadline yet.
abbrev pub Fresh : AcceptAnswers → Bool → Conn → Type 0
Fresh answers is_tls c =
    ((peer : Peer) × (answers.accepted ≡ some (c.fd, peer)))
    × (c.is_tls ≡ is_tls)
    × (c.ssl ≡ is_tls)
    × (c.protocol ≡ proto_unknown)
    × (c.keepalive_deadline ≡ 0)

-- What a round promises, on a queue that holds `cs`.
abbrev pub RoundOk : AcceptAnswers → Bool → Bool → List Conn → ListenerRound → Type 0
RoundOk answers is_tls shutting_down cs (ends closed) =
    (shutting_down ≡ true)
    × ((fd : ℕ) (peer : Peer) → answers.accepted ≡ some (fd, peer) → 0 < fd → closed ≡ some fd)
RoundOk answers is_tls shutting_down cs (sleeps c) =
    (answers.accepted ≡ none)
    ⊎ ((is_tls ≡ true) × ((answers.ssl_created ≡ false) ⊎ (answers.fd_set ≡ false)))
RoundOk answers is_tls shutting_down cs (push_waits c) = Fresh answers is_tls c
RoundOk answers is_tls shutting_down cs (pushed c later) =
    Fresh answers is_tls c × Represents later (cs ++ c ∷ [])

-- The two TLS calls failed.
abbrev NoTls : AcceptAnswers → Bool → Type 0
NoTls answers is_tls = (is_tls ≡ true) × ((answers.ssl_created ≡ false) ⊎ (answers.fd_set ≡ false))

-- What `accept_connection` promises for an accepted descriptor.
abbrev Attached : AcceptAnswers → Bool → ℕ → Bool × Conn → Type 0
Attached answers is_tls fd (true, c) = (c.fd ≡ fd) × Fresh answers is_tls c
Attached answers is_tls fd (false, c) = (c.fd ≡ fd) × NoTls answers is_tls

module _ (answers : AcceptAnswers) (is_tls : Bool) (fd : ℕ) (peer : Peer)
    (a : answers.accepted ≡ some (fd, peer)) where
  attach_tls-Attached :
      (conn : Conn)
      → conn.fd ≡ fd
      → conn.is_tls ≡ is_tls
      → conn.keepalive_deadline ≡ 0
      → Attached answers is_tls fd (attach_tls answers conn)
  unfolding attach_tls
  attach_tls-Attached conn e t d =
      let known : (peer : Peer) × (answers.accepted ≡ some (conn.fd, peer)) =
        (peer, subst (λ n. answers.accepted ≡ some (n, peer)) (sym e) a) in
      elim (Bool-cases conn.is_tls) [
        | inr f ↦ rw (f, attach_tls) (e, (known, sym f ∙ t, sym f ∙ t, refl, d))
        | inl f ↦ elim (Bool-cases answers.ssl_created) [
          | inr g ↦ rw (f, attach_tls) (rw g (e, (sym t ∙ f, inl refl)))
          | inl g ↦ elim (Bool-cases answers.fd_set) [
            | inr h ↦ rw (f, attach_tls) (rw (g, h) (e, (sym t ∙ f, inr refl)))
            | inl h ↦ rw (f, attach_tls) (rw (g, h) (e, (known, sym f ∙ t, sym f ∙ t, refl, d)))
          ]
        ]
      ]

  filled : Conn
  filled = record zero_conn { fd = fd; is_tls = is_tls }

  fill_peer-Attached :
      (p : Peer) → Attached answers is_tls fd (attach_tls answers (fill_peer p filled))
  unfolding fill_peer filled
  fill_peer-Attached (af_inet ip port) =
      attach_tls-Attached (fill_peer (af_inet ip port) filled) refl refl refl
  fill_peer-Attached (af_inet6 ip port) =
      attach_tls-Attached (fill_peer (af_inet6 ip port) filled) refl refl refl
  fill_peer-Attached other_family =
      attach_tls-Attached (fill_peer other_family filled) refl refl refl

  accept_connection-Attached :
      Attached answers is_tls fd (accept_connection answers is_tls zero_conn)
  unfolding accept_connection filled
  accept_connection-Attached =
      subst
        (λ o. Attached answers is_tls fd (elim o [
          | none ↦ (answers.stopping, zero_conn)
          | some b ↦
              attach_tls answers (fill_peer b.1 (record zero_conn { fd = b.0; is_tls = is_tls }))
        ]))
        (sym a) (fill_peer-Attached peer)

push_conn-RoundOk :
    (answers : AcceptAnswers) (is_tls : Bool) (q : WorkQueue) (cs : List Conn) (c : Conn)
    → Represents q cs
    → Fresh answers is_tls c
    → RoundOk answers is_tls false cs (push_conn q c)
unfolding push_conn
push_conn-RoundOk answers is_tls q cs c r f = elim (queue_push-Represents q cs c r) [
  | inl (_, e) ↦ rw (e, push_conn) f
  | inr (_, (q', e, r', _, _)) ↦ rw (e, push_conn) (f, r')
]

ends-closed :
    (answers : AcceptAnswers) (fd : ℕ) (peer : Peer) (c : Conn)
    → answers.accepted ≡ some (fd, peer)
    → c.fd ≡ fd
    → (fd' : ℕ) (peer' : Peer) → answers.accepted ≡ some (fd', peer')
    → 0 < fd'
    → (if ltb 0 c.fd then some c.fd else none) ≡ some fd'
ends-closed answers fd peer c a e fd' peer' a' pos =
    let same : fd ≡ fd' = ap (λ p. p.0) (some-injective _ _ (sym a ∙ a')) in
    let e' : c.fd ≡ fd' = e ∙ same in let t : ltb 0 c.fd ≡ true = ground arith in rw t (ap some e')

after_accept-RoundOk :
    (answers : AcceptAnswers) (is_tls shutting_down : Bool) (q : WorkQueue) (cs : List Conn)
    (fd : ℕ) (peer : Peer) (r : Bool × Conn)
    → Represents q cs
    → answers.accepted ≡ some (fd, peer)
    → Attached answers is_tls fd r
    → RoundOk answers is_tls shutting_down cs (after_accept shutting_down q r)
unfolding after_accept
after_accept-RoundOk answers is_tls true q cs fd peer (true, c) r a (e, f) =
    (refl, ends-closed answers fd peer c a e)
after_accept-RoundOk answers is_tls true q cs fd peer (false, c) r a (e, f) =
    (refl, ends-closed answers fd peer c a e)
after_accept-RoundOk answers is_tls false q cs fd peer (true, c) r a (e, f) =
    push_conn-RoundOk answers is_tls q cs c r f
after_accept-RoundOk answers is_tls false q cs fd peer (false, c) r a (e, f) = inr f

-- Of a failed `accept`.
failed-RoundOk :
    (answers : AcceptAnswers) (is_tls stopping shutting_down : Bool) (q : WorkQueue)
    (cs : List Conn)
    → answers.accepted ≡ none
    → (stopping ≡ true → shutting_down ≡ true)
    → RoundOk answers is_tls shutting_down cs (after_accept shutting_down q (stopping, zero_conn))
unfolding after_accept
failed-RoundOk answers is_tls stopping true q cs n m = (refl, λ fd peer a. absurd (ground arith))
failed-RoundOk answers is_tls true false q cs n m = absurd (false≢true (m refl))
failed-RoundOk answers is_tls false false q cs n m = inl n

-- Once the flag for the shutdown is set it stays set. A round of a listener, on a queue that holds
-- `cs`, then does one of these. It ends only at the shutdown, and closes a descriptor above 0 that
-- `accept` gave. It sleeps only if `accept` failed or one of the two TLS calls did. Otherwise it
-- pushes a connection behind the others, or waits to do so, whose descriptor `accept` gave, which is
-- for TLS and has an SSL object exactly on the TLS port, and has no protocol and no deadline; so it
-- never pushes the zeroed connection of a failed `accept`.
pub listener_round-RoundOk :
    (is_tls : Bool) (answers : AcceptAnswers) (shutting_down : Bool) (q : WorkQueue)
    (cs : List Conn)
    → Represents q cs
    → (answers.stopping ≡ true → shutting_down ≡ true)
    → RoundOk answers is_tls shutting_down cs (listener_round is_tls answers shutting_down q)
unfolding listener_round accept_connection
listener_round-RoundOk is_tls answers shutting_down q cs r m =
    elim (Option-cases answers.accepted) [
      | inr ((fd, peer), a) ↦
          after_accept-RoundOk answers is_tls shutting_down q cs fd peer
            (accept_connection answers is_tls zero_conn) r a
            (accept_connection-Attached answers is_tls fd peer a)
      | inl n ↦
          subst
            (λ o. RoundOk answers is_tls shutting_down cs (
              after_accept shutting_down q (elim o [
                | none ↦ (answers.stopping, zero_conn)
                | some a ↦
                    attach_tls answers
                      (fill_peer a.1 (record zero_conn { fd = a.0; is_tls = is_tls }))
              ])))
            (sym n) (failed-RoundOk answers is_tls answers.stopping shutting_down q cs n m)
    ]
