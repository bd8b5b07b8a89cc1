-- ===== src/Text/Decimal/Length.antt =====
-- How many characters the integer conversions print.
use native.Mathlib.Nat.{pow-suc}
use celeritas.Prelude.{
  ℕ, zero, suc, ◌+◌, ◌-◌, ◌/◌, ◌%◌, ◌^◌, ◌≤◌, ◌<◌, [], ◌∷◌, ltb, length, length-append, arith,
  Bool-cases, inl, inr,
}
use celeritas.Text.Decimal.{show_digits, show_nat, show_int}

length-show_digits : (k fuel n : ℕ) → n < 10 ^ suc k → length (show_digits fuel n) ≤ suc k
unfolding show_digits
length-show_digits k zero n h = omega arith
length-show_digits zero (suc fuel) n h = ground arith
length-show_digits (suc k) (suc fuel) n h = ground (
  arith,
  pow-suc 10 (suc k),
  length-show_digits k fuel (n / 10),
  length-append (show_digits fuel (n / 10)) ((b'0' + n % 10) ∷ []),
)

pub length-show_nat : (k n : ℕ) → n < 10 ^ suc k → length (show_nat n) ≤ suc k
unfolding show_nat
length-show_nat k n h = length-show_digits k (suc n) n h

-- An `int` prints at most eleven characters.
pub length-show_int : (v : ℕ) → v < 2 ^ 32 → length (show_int v) ≤ 11
unfolding show_int
length-show_int v h = elim (Bool-cases (ltb v (2 ^ 31))) [
  | inl t ↦ rw t (omega (arith, length-show_nat 10 v (ground arith)))
  | inr f ↦ rw f (omega (arith, length-show_nat 9 (2 ^ 32 - v) (ground arith)))
]
