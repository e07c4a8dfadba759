-- ===== src/Value/Double.antt =====
-- The cast of a `uint64_t` to a `double`: a number of more than 53 bits is rounded to the nearest
-- multiple of the power of two that is left, and to an even multiple when two are as near.
use leveldown.Base.{ℕ, zero, suc, ◌+◌, ◌*◌, ◌/◌, ◌%◌, ◌^◌, ltb, ◌==◌, if◌then◌else◌, ◌&&◌, ◌||◌}

-- The nearest multiple of `unit`.
unfoldable pub round_to : ℕ → ℕ → ℕ
round_to unit n =
    let q = n / unit in
    let r = n % unit in
    if ltb unit (r * 2) || (r * 2 == unit && q % 2 == 1) then (q + 1) * unit else q * unit

-- The unit in the last place, doubled until 53 bits are enough.
unfoldable pub unit_of : ℕ → ℕ → ℕ → ℕ
unit_of zero unit n = unit
unit_of (suc fuel) unit n =
    let more = unit_of fuel (unit * 2) n in if ltb n (unit * 2 ^ 53) then unit else more

-- A number below 2^64 needs at most 11 doublings.
unfoldable pub to_double : ℕ → ℕ
to_double n = round_to (unit_of 11 1 n) n
