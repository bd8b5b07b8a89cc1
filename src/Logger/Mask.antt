-- ===== src/Logger/Mask.antt =====
-- The mask `& (ring_size - 1)` steps through the slots of a ring whose size is a power of two.
use Prim.Native.Nat.{digits, bit_and-bitwise}
use celeritas.Prelude.{
  ℕ, zero, suc, ◌+◌, ◌-◌, ◌*◌, ◌/◌, ◌%◌, ◌^◌, ◌≤◌, ◌<◌, min, bit_and, ◌≡◌, refl, arith, inl, inr,
  Bool-cases, ltb,
}
use celeritas.Slots.{succ_slot, succ_slot_eq}

-- The conjunction of the lowest `n` digits, which the native operation stands for.
abbrev and_low : ℕ → ℕ → ℕ → ℕ
and_low n x y = digits (λ w. zero) min n x y

-- No more digits are needed than the number itself counts.
and_low-enough : (bound n x y : ℕ) → n ≤ bound → x ≤ n → and_low n x y ≡ and_low x x y
and_low-enough bound zero zero y hb hx = refl
and_low-enough bound zero (suc x) y hb hx = absurd (omega arith)
and_low-enough bound (suc n) zero y hb hx = refl
and_low-enough zero (suc n) (suc x) y hb hx = absurd (omega arith)
and_low-enough (suc bound) (suc n) (suc x) y hb hx =
    let half = suc x / 2 in
    omega (
      arith,
      and_low-enough bound n half (y / 2) (omega arith) (omega arith),
      and_low-enough bound x half (y / 2) (omega arith) (omega arith),
    )

zero-bit_and : (y : ℕ) → bit_and 0 y ≡ 0
zero-bit_and y = bit_and-bitwise 0 y

bit_and-halves : (x y : ℕ) → bit_and x y ≡ bit_and (x / 2) (y / 2) * 2 + min (x % 2) (y % 2)
bit_and-halves zero y = omega (arith, zero-bit_and y, zero-bit_and (y / 2))
bit_and-halves (suc x) y =
    let half = suc x / 2 in
    omega (
      arith,
      bit_and-bitwise (suc x) y,
      bit_and-bitwise half (y / 2),
      and_low-enough x x half (y / 2) (omega arith) (omega arith),
    )

pub pow-pos : (k : ℕ) → 0 < 2 ^ k
pow-pos zero = omega arith
pow-pos (suc k) = omega (arith, pow-pos k)

bit_and-mask_lt : (k a : ℕ) → a < 2 ^ k → bit_and a (2 ^ k - 1) ≡ a
bit_and-mask_lt zero zero h = zero-bit_and (2 ^ 0 - 1)
bit_and-mask_lt zero (suc a) h = absurd (omega arith)
bit_and-mask_lt (suc k) a h =
    let e : (2 ^ suc k - 1) / 2 ≡ 2 ^ k - 1 = omega (arith, pow-pos k) in
    let i : bit_and (a / 2) ((2 ^ suc k - 1) / 2) ≡ a / 2 =
      rw e (bit_and-mask_lt k (a / 2) (omega arith)) in
    omega (arith, bit_and-halves a (2 ^ suc k - 1), i, pow-pos k)

bit_and-mask_self : (k : ℕ) → bit_and (2 ^ k) (2 ^ k - 1) ≡ 0
bit_and-mask_self zero = refl
bit_and-mask_self (suc k) =
    let e : (2 ^ suc k - 1) / 2 ≡ 2 ^ k - 1 = omega (arith, pow-pos k) in
    let f : 2 ^ suc k / 2 ≡ 2 ^ k = omega arith in
    let i : bit_and (2 ^ suc k / 2) ((2 ^ suc k - 1) / 2) ≡ 0 = rw (e, f) (bit_and-mask_self k) in
    omega (arith, bit_and-halves (2 ^ suc k) (2 ^ suc k - 1), i)

pub bit_and-succ_slot : (k i : ℕ) → i < 2 ^ k → bit_and (i + 1) (2 ^ k - 1) ≡ succ_slot (2 ^ k) i
bit_and-succ_slot k i h = elim (Bool-cases (ltb (i + 1) (2 ^ k))) [
  | inl t ↦ ground (arith, t, succ_slot_eq (2 ^ k) i h, bit_and-mask_lt k (i + 1))
  | inr t ↦
      let e : i + 1 ≡ 2 ^ k = ground (arith, t) in
      rw (succ_slot_eq (2 ^ k) i h, t) (rw e (bit_and-mask_self k))
]
