-- ===== src/Util/Power.antt =====
-- Which number `next_power_of_2` gives.
use celeritas.Prelude.{
  ℕ, zero, suc, ◌+◌, ◌-◌, ◌*◌, ◌/◌, ◌%◌, ◌^◌, ◌≤◌, ◌<◌, ◌≡◌, refl, subst, arith, Bool-cases, false,
  inl, inr, ltb, ◌==◌,
}
use native.Mathlib.Nat.{pow-le-pow_right}
use celeritas.Util.{smear, next_power_of_2}
use celeritas.Util.Ones.{Ones, dec, down, down_eq, pow-pos, Ones-shift, Ones-bit_or}

-- A number that is less than 2^k has some `n` bits, the highest of them a one.
bit_length : (k w : ℕ) → w < 2 ^ k → (n : ℕ) × (n ≤ k) × Ones n (dec n) w
bit_length zero w h = (0, omega arith, (omega arith, h, omega arith))
bit_length (suc k) w h = elim (Bool-cases (ltb w (2 ^ k))) [
  | inl t ↦
      let l : w < 2 ^ k = ground (arith, t) in
      let (n, a, b) = bit_length k w l in (n, omega arith, b)
  | inr t ↦
      let l : 2 ^ k ≤ w = ground (arith, t) in
      (suc k, omega arith, (omega arith, h, omega (arith, l)))
]

-- After `t` ones at the top a smear by `t` makes twice as many.
smear-Ones : (t n x : ℕ) → Ones n (down t n) x → Ones n (down t (down t n)) (smear x t)
unfolding smear
smear-Ones t n x h =
    Ones-bit_or n (down t n) (down t (down t n)) x (x / 2 ^ t) h (Ones-shift t n (down t n) x h)

abbrev smeared : ℕ → ℕ
smeared w = smear (smear (smear (smear (smear w 1) 2) 4) 8) 16

smeared-Ones : (n w : ℕ) → Ones n (dec n) w → Ones n (down 32 n) (smeared w)
smeared-Ones n w h = smear-Ones 16 n (smear (smear (smear (smear w 1) 2) 4) 8) (
    smear-Ones 8 n (smear (smear (smear w 1) 2) 4)
      (smear-Ones 4 n (smear (smear w 1) 2) (smear-Ones 2 n (smear w 1) (smear-Ones 1 n w h))))

smeared-eq : (n w : ℕ) → n ≤ 32 → Ones n (dec n) w → smeared w + 1 ≡ 2 ^ n
smeared-eq n w h o =
    let e : down 32 n ≡ 0 = omega (arith, down_eq 32 n) in
    let r : Ones n 0 (smeared w) = subst (λ k. Ones n k (smeared w)) e (smeared-Ones n w o) in
    omega (arith, r)

Ones-lt : (n x : ℕ) → Ones n (dec n) x → 2 ^ n < 2 * (x + 1)
Ones-lt zero x (a, b, c) = omega arith
Ones-lt (suc n) x (a, b, c) = omega (arith, c)

-- For each `v` from 1 to 2^31, `next_power_of_2 v` is a power of two, is at least `v`, and is less
-- than twice `v`: no smaller power of two is at least `v`.
pub next_power_of_2-least :
    (v : ℕ)
    → 0 < v
    → v ≤ 2 ^ 31
    → (k : ℕ) × (next_power_of_2 v ≡ 2 ^ k) × (v ≤ 2 ^ k) × (2 ^ k < 2 * v)
unfolding next_power_of_2
next_power_of_2-least v pos h =
    let (n, b, o) = bit_length 31 (v - 1) (omega arith) in
    let e : smeared (v - 1) + 1 ≡ 2 ^ n = smeared-eq n (v - 1) (omega arith) o in
    let d : (v + 2 ^ 32 - 1) % 2 ^ 32 ≡ v - 1 = omega arith in
    let p : 2 ^ n ≤ 2 ^ 31 = pow-le-pow_right (omega arith) b in
    let u : (smeared (v - 1) + 1) % 2 ^ 32 ≡ 2 ^ n = omega (arith, e, p) in
    let z : (2 ^ n == 0) ≡ false = ground (arith, pow-pos n) in
    (
      n,
      rw (d, u, z, next_power_of_2) refl,
      omega (arith, o.1, pos),
      omega (arith, Ones-lt n (v - 1) o, pos),
    )
