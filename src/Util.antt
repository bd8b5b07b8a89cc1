-- ===== src/Util.antt =====
-- src/util.c: the arithmetic helper `next_power_of_2`, on 32-bit words.
pub mod Files
pub mod Ones
pub mod Power
use celeritas.Prelude.{ℕ, ◌+◌, ◌-◌, ◌/◌, ◌%◌, ◌^◌, bit_or, ◌==◌, if◌then◌else◌}

-- `v |= v >> k`
unfoldable pub smear : ℕ → ℕ → ℕ
smear v k = bit_or v (v / 2 ^ k)

-- `next_power_of_2`; both the decrement and the increment wrap around.
unfoldable pub next_power_of_2 : ℕ → ℕ
next_power_of_2 v =
    let down = (v + 2 ^ 32 - 1) % 2 ^ 32 in
    let ones = smear (smear (smear (smear (smear down 1) 2) 4) 8) 16 in
    let up = (ones + 1) % 2 ^ 32 in if up == 0 then 1 else up
