-- ===== src/Prelude/Doubles.antt =====
-- Rounding to doubles. A number stands for so many units, which are small enough that every double of
-- the size in question is a whole number of them.
use Prim.Native.Nat.{ℕ, zero, suc, ◌+◌, ◌*◌, ◌/◌, ◌%◌}
use mathlib.Core.Bool.{◌&&◌, ◌||◌}
use mac_bennet.Prelude.Tests.{ltb, ◌==◌, if◌then◌else◌}

unfoldable pub power_of_two : ℕ → ℕ
power_of_two zero = 1
power_of_two (suc e) = 2 * power_of_two e

-- How many bits a number has beyond the 53 of a double's significand, if they are at most `fuel`.
unfoldable pub excess_bits : ℕ → ℕ → ℕ
excess_bits zero n = 0
excess_bits (suc fuel) n =
    let rest = excess_bits fuel (n / 2) in if ltb n 9007199254740992 then 0 else suc rest

-- The quotient in units of its last place, rounded to the nearest, ties to even.
unfoldable pub round_quotient : ℕ → ℕ → ℕ
round_quotient n unit =
    let q = n / unit in
    let rest = n % unit * 2 in if ltb unit rest || (rest == unit && q % 2 == 1) then q + 1 else q

-- The double nearest to `n / d`. The quotient is below 2^117.
unfoldable pub round_double : ℕ → ℕ → ℕ
round_double n d =
    let unit = power_of_two (excess_bits 64 (n / d)) in round_quotient n (d * unit) * unit
