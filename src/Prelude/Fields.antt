-- ===== src/Prelude/Fields.antt =====
-- Fields of bits: remainders and quotients by powers of two.
use Prim.Native.Nat.{ℕ, zero, suc, ◌+◌, ◌-◌, ◌*◌, ◌/◌, ◌%◌, ◌^◌, ◌<◌}
use mathlib.Core.Path.{◌≡◌, ap, ◌∙◌}
use native.Mathlib.Nat.{
  pow-suc, one-le-pow, mod-add-div, div-div-eq-div-mul, add-mul-div_left, div-eq_of_lt, mod-lt,
  add-zero,
}
use native.Mathlib.Omega.{arith}

-- `count` bits of `w`, the highest of them bit `start`.
abbrev pub field : ℕ → ℕ → ℕ → ℕ
field w start count = w / 2 ^ (start + 1 - count) % 2 ^ count

pub pow-add : (a b : ℕ) → 2 ^ (a + b) ≡ 2 ^ a * 2 ^ b
pow-add a zero = rw add-zero (omega arith)
pow-add a (suc b) =
    ap (λ (t : ℕ). 2 ^ t) (omega arith)
    ∙ pow-suc 2 (a + b)
    ∙ omega (arith, ap (λ (t : ℕ). t * 2) (pow-add a b), ap (λ (t : ℕ). 2 ^ a * t) (pow-suc 2 b))

pub mod-mul : (w b c : ℕ) → w % (b * c) ≡ w % b + b * (w / b % c)
mod-mul w b c = omega (
  arith,
  mod-add-div w (b * c),
  ap (λ (t : ℕ). b * c * t) (div-div-eq-div-mul w b c),
  ap (λ (t : ℕ). b * t) (mod-add-div (w / b) c),
  mod-add-div w b,
)

-- The bits from `b` on of a remainder.
pub mod-div : (w b c : ℕ) → w % 2 ^ (b + c) / 2 ^ b ≡ w / 2 ^ b % 2 ^ c
mod-div w b c =
    let some_bits : zero < 2 ^ b = one-le-pow b 2 (omega arith) in
    rw (pow-add b c, mod-mul w (2 ^ b) (2 ^ c))
      (add-mul-div_left (w % 2 ^ b) (w / 2 ^ b % 2 ^ c) some_bits
        ∙ omega (arith, div-eq_of_lt (mod-lt w some_bits)))
