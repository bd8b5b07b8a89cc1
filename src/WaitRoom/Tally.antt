-- ===== src/WaitRoom/Tally.antt =====
-- How often a descriptor stands in a list of connections.
use celeritas.Prelude.{ℕ, ◌+◌, ◌≡◌, List, [], ◌∷◌, ◌++◌, ◌==◌, if◌then◌else◌, arith}
use celeritas.Types.{Conn}
use mathlib.Core.List.{Perm, foldr}
use mathlib.Core.List.Perm
use native.Mathlib.Nat.{ℕ_set}

abbrev pub one_if : ℕ → Conn → ℕ
one_if fd c = if c.fd == fd then 1 else 0

abbrev pub tally : ℕ → List Conn → ℕ
tally fd cs = foldr (λ c n. one_if fd c + n) 0 cs

pub tally-append : (fd : ℕ) (xs ys : List Conn) → tally fd (xs ++ ys) ≡ tally fd xs + tally fd ys
tally-append fd [] ys = omega arith
tally-append fd (x ∷ xs) ys =
    let e : tally fd (xs ++ ys) ≡ tally fd xs + tally fd ys = tally-append fd xs ys in omega arith

pub tally-Perm : (fd : ℕ) {xs ys : List Conn} → Perm xs ys → tally fd xs ≡ tally fd ys
tally-Perm fd p =
    Perm.foldr-eq ℕ_set (λ c n. one_if fd c + n)
      (λ a b n. let x = one_if fd a in let y = one_if fd b in omega arith) p 0
