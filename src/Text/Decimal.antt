-- ===== src/Text/Decimal.antt =====
-- `%d` and `%u` of the printf family.
pub mod Length
use celeritas.Prelude.{
  ℕ, zero, suc, ◌+◌, ◌-◌, ◌/◌, ◌%◌, ◌^◌, [], ◌∷◌, ◌++◌, ltb, if◌then◌else◌, Bytes,
}

-- One digit a round; as many rounds as the number itself are more than enough.
unfoldable pub show_digits : ℕ → ℕ → Bytes
show_digits zero n = []
show_digits (suc fuel) n =
    let front = show_digits fuel (n / 10) in
    if ltb n 10 then (b'0' + n) ∷ [] else front ++ (b'0' + n % 10) ∷ []

-- `%u`
unfoldable pub show_nat : ℕ → Bytes
show_nat n = show_digits (suc n) n

-- `%d` of the `int` with the bit pattern `v`.
unfoldable pub show_int : ℕ → Bytes
show_int v = if ltb v (2 ^ 31) then show_nat v else b'-' ∷ show_nat (2 ^ 32 - v)
