-- ===== src/Socket/Listen.antt =====
-- `create_listener` of src/socket.c, over the answers of the kernel.
use celeritas.Prelude.{
  ℕ, ◌≡◌, refl, ap, ◌∙◌, Bool, true, false, Option, none, some, List, [], ◌∷◌, ◌++◌, if◌then◌else◌,
  append-nil, Bool-cases, Option-cases, inl, inr, sym, Any, arith,
}

-- An address of `getaddrinfo`, and what `socket` and `bind` answer for it.
pub record Candidate : Type 0 where
  pub is_inet6 : Bool
  pub socket : Option ℕ
  pub bound : Bool

-- The options that are set; the results are not looked at.
pub data SockOption : Type 0 where
  reuse_addr v6_only_off : SockOption

-- `listen_fd`, `none` for one below 0, the sockets closed, and the options set, in order.
pub record Listen : Type 0 where
  pub listen_fd : Option ℕ
  pub closed : List ℕ
  pub options : List (ℕ × SockOption)

abbrev nothing_bound : Listen
nothing_bound = record { listen_fd = none; closed = []; options = [] }

-- The two calls of `setsockopt`.
unfoldable pub socket_options : Bool → ℕ → List (ℕ × SockOption)
socket_options is_inet6 fd = (fd, reuse_addr) ∷ (if is_inet6 then (fd, v6_only_off) ∷ [] else [])

-- The loop over the addresses.
unfoldable pub bind_first : List Candidate → Listen
bind_first [] = nothing_bound
bind_first (p ∷ ps) =
    let rest = bind_first ps in
    elim p.socket [
      | none ↦ rest
      | some fd ↦
          let opts = socket_options p.is_inet6 fd in
          if p.bound
          then record { listen_fd = some fd; closed = []; options = opts }
          else record rest { closed = fd ∷ rest.closed; options = opts ++ rest.options }
    ]

-- From the test of `listen_fd` on.
unfoldable pub listen_on : Bool → Listen → Listen
listen_on listen_ok l = elim l.listen_fd [
  | none ↦ l
  | some fd ↦ if listen_ok then l else record l { listen_fd = none; closed = l.closed ++ fd ∷ [] }
]

-- `create_listener`: `res` is `none` where `getaddrinfo` fails, and `listen_ok` is the answer of
-- `listen`.
unfoldable pub create_listener : Option (List Candidate) → Bool → Listen
create_listener none listen_ok = nothing_bound
create_listener (some res) listen_ok = listen_on listen_ok (bind_first res)

-- The sockets that the loop opens: it stops at the first that is bound.
abbrev pub opened : List Candidate → List ℕ
opened [] = []
opened (p ∷ ps) = elim p.socket [
  | none ↦ opened ps
  | some fd ↦ if p.bound then fd ∷ [] else fd ∷ opened ps
]

abbrev pub to_list : Option ℕ → List ℕ
to_list none = []
to_list (some n) = n ∷ []

bind_first-opened :
    (ps : List Candidate) → opened ps ≡ (bind_first ps).closed ++ to_list (bind_first ps).listen_fd
unfolding bind_first
bind_first-opened [] = refl
bind_first-opened (p ∷ ps) = elim (Option-cases p.socket) [
  | inl n ↦ rw (n, bind_first, opened) (bind_first-opened ps)
  | inr (fd, s) ↦ elim (Bool-cases p.bound) [
    | inl t ↦ rw (s, bind_first, opened) (rw t refl)
    | inr t ↦ rw (s, bind_first, opened) (rw t (ap (λ l. fd ∷ l) (bind_first-opened ps)))
  ]
]

-- `create_listener` loses no socket: those that it opened, up to the first that is bound, are in order
-- the ones that it closed and then the one that it returns, if it returns one.
pub create_listener-opened :
    (ps : List Candidate) (listen_ok : Bool)
    → opened ps
      ≡ (create_listener (some ps) listen_ok).closed
        ++ to_list (create_listener (some ps) listen_ok).listen_fd
unfolding create_listener listen_on
create_listener-opened ps true = elim (Option-cases (bind_first ps).listen_fd) [
  | inl n ↦ rw (n, listen_on) (bind_first-opened ps)
  | inr (fd, s) ↦ rw (s, listen_on) (bind_first-opened ps)
]
create_listener-opened ps false = elim (Option-cases (bind_first ps).listen_fd) [
  | inl n ↦ rw (n, listen_on) (bind_first-opened ps)
  | inr (fd, s) ↦
      rw (s, listen_on)
        (bind_first-opened ps
          ∙ ap (λ o. (bind_first ps).closed ++ to_list o) s
          ∙ sym (append-nil ((bind_first ps).closed ++ fd ∷ [])))
]

-- `fd` is a socket of one of the addresses that was bound, and `listen` on it succeeded.
abbrev pub Listening : Option (List Candidate) → Bool → ℕ → Type 0
Listening none listen_ok fd = ⊥
Listening (some ps) listen_ok fd =
    (listen_ok ≡ true) × Any (λ p. (p.socket ≡ some fd) × (p.bound ≡ true)) ps

bind_first-bound :
    (ps : List Candidate) (fd : ℕ)
    → (bind_first ps).listen_fd ≡ some fd
    → Any (λ p. (p.socket ≡ some fd) × (p.bound ≡ true)) ps
unfolding bind_first
bind_first-bound [] fd = λ e. absurd (ground (arith, e))
bind_first-bound (p ∷ ps) fd = elim (Option-cases p.socket) [
  | inl n ↦ rw (n, bind_first) (λ e. inr (bind_first-bound ps fd e))
  | inr (made, s) ↦ elim (Bool-cases p.bound) [
    | inl t ↦ rw (s, bind_first) (rw t (λ e. inl (e, refl)))
    | inr t ↦ rw (s, bind_first) (rw t (λ e. inr (bind_first-bound ps fd e)))
  ]
]

-- A socket that `create_listener` returns is bound and listens.
pub create_listener-Listening :
    (res : Option (List Candidate)) (listen_ok : Bool) (fd : ℕ)
    → (create_listener res listen_ok).listen_fd ≡ some fd
    → Listening res listen_ok fd
unfolding create_listener listen_on
create_listener-Listening none listen_ok fd = λ e. absurd (ground (arith, e))
create_listener-Listening (some ps) true fd = elim (Option-cases (bind_first ps).listen_fd) [
  | inl n ↦ rw (n, listen_on) (λ e. (refl, bind_first-bound ps fd e))
  | inr (made, s) ↦ rw (s, listen_on) (λ e. (refl, bind_first-bound ps fd e))
]
create_listener-Listening (some ps) false fd = elim (Option-cases (bind_first ps).listen_fd) [
  | inl n ↦ rw (n, listen_on) (λ e. absurd (ground (arith, n, e)))
  | inr (made, s) ↦ rw (s, listen_on) (λ e. absurd (ground (arith, e)))
]
