-- ===== src/Tests/Configuration.antt =====
-- The configuration file.
use celeritas.Prelude.{ℕ, ◌^◌, ◌<◌, ◌≤◌, ◌≡◌, refl, some, arith, Bytes}
use celeritas.Text.{codes}
use celeritas.Text.Decimal.{show_nat}
use celeritas.Util.Power.{next_power_of_2-least}
use celeritas.Util.{next_power_of_2, smear}
use celeritas.Config.Line.{parse_uint16}
use celeritas.Config.Keys.{parse_uint16-show_nat}

abbrev a_file : Bytes
a_file = codes "http_port = 8080\n"

parse_uint16-show_nat_example : parse_uint16 (show_nat 8080) ≡ some 8080
parse_uint16-show_nat_example = parse_uint16-show_nat 8080 (omega arith)

-- Powers of two are kept and other sizes rounded up; from 2^31 + 1 on the word is too small.
rounded_sizes :
    (next_power_of_2 0 ≡ 1)
    × (next_power_of_2 5 ≡ 8)
    × (next_power_of_2 256 ≡ 256)
    × (next_power_of_2 40000 ≡ 65536)
    × (next_power_of_2 3000000000 ≡ 1)
unfolding next_power_of_2 smear
rounded_sizes = (refl, refl, refl, refl, refl)

next_power_of_2-least_example :
    (k : ℕ) × (next_power_of_2 300 ≡ 2 ^ k) × (300 ≤ 2 ^ k) × (2 ^ k < 600)
next_power_of_2-least_example = next_power_of_2-least 300 (omega arith) (omega arith)
