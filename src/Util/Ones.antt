-- ===== src/Util/Ones.antt =====
-- Numbers whose highest bits are ones, and what halving and `bit_or` do to them.
use Prim.Native.Nat.{digits, bit_or-bitwise}
use native.Mathlib.Nat.{pow-suc, pow-le-pow_right, div-div-eq-div-mul}
use celeritas.Prelude.{
  ℕ, zero, suc, ◌+◌, ◌-◌, ◌*◌, ◌/◌, ◌%◌, ◌^◌, ◌≤◌, ◌<◌, max, bit_or, ◌≡◌, refl, sym, ap, ◌∙◌, subst,
  arith,
}

-- The number before, 0 before 0.
abbrev pub dec : ℕ → ℕ
dec zero = zero
dec (suc n) = n

abbrev pub down : ℕ → ℕ → ℕ
down zero n = n
down (suc t) n = dec (down t n)

pub down_eq : (t n : ℕ) → down t n ≡ n - t
down_eq zero n = omega arith
down_eq (suc t) n = omega (arith, down_eq t n, dec_eq (down t n))
  where
    dec_eq : (m : ℕ) → dec m ≡ m - 1
    dec_eq zero = omega arith
    dec_eq (suc m) = omega arith

pub pow-pos : (k : ℕ) → 0 < 2 ^ k
pow-pos zero = omega arith
pow-pos (suc k) = omega (arith, pow-pos k)

-- Of the `n` bits of `x` all are ones but the lowest `m`, which are any.
abbrev pub Ones : ℕ → ℕ → ℕ → Type 0
Ones n m x = (m ≤ n) × (x < 2 ^ n) × (2 ^ n ≤ x + 2 ^ m)

Ones-half : (n m x : ℕ) → Ones n m x → Ones (dec n) (dec m) (x / 2)
Ones-half zero zero x (a, b, c) = (omega arith, omega arith, omega arith)
Ones-half zero (suc m) x (a, b, c) = absurd (omega arith)
Ones-half (suc n) zero x (a, b, c) = (omega arith, omega arith, omega (arith, pow-pos n))
Ones-half (suc n) (suc m) x (a, b, c) = (omega arith, omega arith, omega (arith, pow-pos m))

-- A shift to the right drops the lowest bits.
pub Ones-shift : (t n m x : ℕ) → Ones n m x → Ones (down t n) (down t m) (x / 2 ^ t)
Ones-shift zero n m x h = subst (Ones n m) (omega arith) h
Ones-shift (suc t) n m x h =
    let e : x / 2 ^ t / 2 ≡ x / 2 ^ suc t =
      div-div-eq-div-mul x (2 ^ t) 2 ∙ ap (λ d. x / d) (sym (pow-suc 2 t)) in
    subst (Ones (down (suc t) n) (down (suc t) m)) e
      (Ones-half (down t n) (down t m) (x / 2 ^ t) (Ones-shift t n m x h))

-- The disjunction of the lowest `n` digits, which the native operation stands for.
abbrev or_low : ℕ → ℕ → ℕ → ℕ
or_low n x y = digits (λ w. w) max n x y

or_low-enough : (bound n x y : ℕ) → n ≤ bound → x ≤ n → or_low n x y ≡ or_low x x y
or_low-enough bound zero zero y hb hx = refl
or_low-enough bound zero (suc x) y hb hx = absurd (omega arith)
or_low-enough bound (suc n) zero y hb hx = refl
or_low-enough zero (suc n) (suc x) y hb hx = absurd (omega arith)
or_low-enough (suc bound) (suc n) (suc x) y hb hx =
    let half = suc x / 2 in
    omega (
      arith,
      or_low-enough bound n half (y / 2) (omega arith) (omega arith),
      or_low-enough bound x half (y / 2) (omega arith) (omega arith),
    )

zero-bit_or : (y : ℕ) → bit_or 0 y ≡ y
zero-bit_or y = bit_or-bitwise 0 y

bit_or-halves : (x y : ℕ) → bit_or x y ≡ bit_or (x / 2) (y / 2) * 2 + max (x % 2) (y % 2)
bit_or-halves zero y = omega (arith, zero-bit_or y, zero-bit_or (y / 2))
bit_or-halves (suc x) y =
    let half = suc x / 2 in
    omega (
      arith,
      bit_or-bitwise (suc x) y,
      bit_or-bitwise half (y / 2),
      or_low-enough x x half (y / 2) (omega arith) (omega arith),
    )

bit_or-lt : (n x y : ℕ) → x < 2 ^ n → y < 2 ^ n → bit_or x y < 2 ^ n
bit_or-lt zero x y a b =
    let ex : x ≡ 0 = omega arith in let ey : y ≡ 0 = omega arith in rw (ex, ey) (omega arith)
bit_or-lt (suc n) x y a b =
    omega (arith, bit_or-halves x y, bit_or-lt n (x / 2) (y / 2) (omega arith) (omega arith))

-- `x` without its lowest `m` bits.
abbrev clear_low : ℕ → ℕ → ℕ
clear_low zero x = x
clear_low (suc m) x = clear_low m (x / 2) * 2

bit_or-zero : (bound x : ℕ) → x ≤ bound → bit_or x 0 ≡ x
bit_or-zero bound zero h = zero-bit_or 0
bit_or-zero zero (suc x) h = absurd (omega arith)
bit_or-zero (suc bound) (suc x) h =
    omega (arith, bit_or-halves (suc x) 0, bit_or-zero bound (suc x / 2) (omega arith))

bit_or-ge : (m x y : ℕ) → y < 2 ^ m → clear_low m x + y ≤ bit_or x y
bit_or-ge zero x y h =
    let e : y ≡ 0 = omega arith in rw e (omega (arith, bit_or-zero x x (omega arith)))
bit_or-ge (suc m) x y h =
    omega (arith, bit_or-halves x y, bit_or-ge m (x / 2) (y / 2) (omega arith))

clear_low-ge : (m j x : ℕ) → 2 ^ (m + j) ≤ x + 2 ^ m → 2 ^ (m + j) ≤ clear_low m x + 2 ^ m
clear_low-ge zero j x h = h
clear_low-ge (suc m) j x h =
    let s : suc m + j ≡ suc (m + j) = omega arith in
    let e : 2 ^ (suc m + j) ≡ 2 ^ suc (m + j) = ap (λ i. 2 ^ i) s in
    omega (arith, e, h, clear_low-ge m j (x / 2) (omega (arith, e, h)))

-- What is shifted to the place of the lowest bits fills them with its ones.
pub Ones-bit_or : (n m k x y : ℕ) → Ones n m x → Ones m k y → Ones n k (bit_or x y)
Ones-bit_or n m k x y (a, b, c) (d, e, f) =
    let s : m + (n - m) ≡ n = omega arith in
    let q : 2 ^ (m + (n - m)) ≡ 2 ^ n = ap (λ i. 2 ^ i) s in
    let p : 2 ^ m ≤ 2 ^ n = pow-le-pow_right (omega arith) a in
    let g : 2 ^ (m + (n - m)) ≤ clear_low m x + 2 ^ m =
      clear_low-ge m (n - m) x (omega (arith, q, c)) in
    (
      omega (arith, a, d),
      bit_or-lt n x y b (omega (arith, p, e)),
      omega (arith, q, g, bit_or-ge m x y e, f),
    )
