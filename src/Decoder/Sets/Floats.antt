-- ===== src/Decoder/Sets/Floats.antt =====
-- The floating-point expression of the random number instruction in vm/decoder.c,
-- `(float) data * rand()/(RAND_MAX+1.0)`, on natural numbers. A `float` has 24 significant bits and
-- rounds to the nearest, to even on a tie; `float` operands are multiplied as `float`; RAND_MAX is
-- 2 ^ 31 - 1, so the division is exact in a `double`.
use libdvdnav.Prelude.{ℕ, zero, suc, ◌+◌, ◌*◌, ◌/◌, ◌%◌, ◌^◌, ltb, ◌==◌, if◌then◌else◌}

-- How many of the lowest bits do not fit 24; `fuel` bounds the number of bits.
unfoldable pub excess_bits : ℕ → ℕ → ℕ
excess_bits zero n = 0
excess_bits (suc fuel) n = if ltb n (2 ^ 24) then 0 else suc (excess_bits fuel (n / 2))

-- Rounding at a bit: `q` units and a rest `r`, out of `unit`.
unfoldable pub round_half_even : ℕ → ℕ → ℕ → ℕ
round_half_even unit q r =
    if ltb (2 * r) unit then q else if ltb unit (2 * r) then q + 1 else q + q % 2

-- The nearest `float`; every number here has fewer than 64 bits.
unfoldable pub to_float : ℕ → ℕ
unfolding excess_bits round_half_even
to_float n =
    let k = excess_bits 64 n in
    if k == 0 then n else round_half_even (2 ^ k) (n / 2 ^ k) (n % 2 ^ k) * 2 ^ k

unfoldable pub scaled_random : ℕ → ℕ → ℕ
unfolding to_float
scaled_random d r = to_float (to_float d * to_float r) / 2 ^ 31
