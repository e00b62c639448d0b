-- ===== src/Prelude/Bits.antt =====
-- C's `&`, `|` and `^` as arithmetic. Each law is proved of the recursion that the native operation
-- stands for, with any number of rounds that is enough for the first operand.
use Prim.Native.Nat.{
  ℕ, zero, suc, ◌+◌, ◌-◌, ◌*◌, ◌/◌, ◌%◌, ◌^◌, ◌≤◌, ◌<◌, min, max, bit_and, bit_or, bit_xor, differ,
}
use Prim.Native.Nat.{digits, bit_and-bitwise, bit_or-bitwise, bit_xor-bitwise}
use mathlib.Core.Path.{◌≡◌, refl, ap, sym, ◌∙◌}
use native.Mathlib.Nat.{
  pow-suc, one-le-pow, mod-one, le_refl, zero-div, zero-mul, div-div-eq-div-mul,
}
use native.Mathlib.Omega.{arith}
use libdvdnav.Prelude.Fields.{mod-mul}

module _ (z : ℕ → ℕ) (f : ℕ → ℕ → ℕ) where
  -- Numbers of `k` digits give a number of `k` digits.
  digits-lt :
      ((b : ℕ) → z b ≤ b)
      → ((x y : ℕ) → x < 2 → y < 2 → f x y < 2)
      → (rounds k a b : ℕ) → a < 2 ^ k
      → b < 2 ^ k
      → digits z f rounds a b < 2 ^ k
  digits-lt below bit zero k a b p q = omega (arith, below b)
  digits-lt below bit (suc rounds) k zero b p q = omega (arith, below b)
  digits-lt below bit (suc rounds) zero (suc a) b p q = absurd (omega arith)
  digits-lt below bit (suc rounds) (suc k) (suc a) b p q =
      let double = pow-suc 2 k in
      omega (
        arith,
        bit (suc a % 2) (b % 2) (omega arith) (omega arith),
        digits-lt below bit rounds k (suc a / 2) (b / 2) (omega arith) (omega arith),
      )

abbrev none_left : ℕ → ℕ
none_left b = zero

abbrev rest : ℕ → ℕ
rest b = b

min-bit : (x y : ℕ) → x < 2 → y < 2 → min x y < 2
min-bit x y p q = omega arith

max-bit : (x y : ℕ) → x < 2 → y < 2 → max x y < 2
max-bit x y p q = omega arith

differ-bit : (x y : ℕ) → x < 2 → y < 2 → differ x y < 2
differ-bit zero y p q = q
differ-bit (suc x) zero p q = p
differ-bit (suc zero) (suc zero) p q = omega arith
differ-bit (suc zero) (suc (suc y)) p q = absurd (omega arith)
differ-bit (suc (suc x)) (suc y) p q = absurd (omega arith)

-- `&`, `|` and `^` of `k`-bit numbers are `k`-bit numbers.
pub bit_and-lt : (k a b : ℕ) → a < 2 ^ k → b < 2 ^ k → bit_and a b < 2 ^ k
bit_and-lt k a b p q =
    rw bit_and-bitwise (digits-lt none_left min (λ b. omega arith) min-bit a k a b p q)

pub bit_or-lt : (k a b : ℕ) → a < 2 ^ k → b < 2 ^ k → bit_or a b < 2 ^ k
bit_or-lt k a b p q = rw bit_or-bitwise (digits-lt rest max (λ b. le_refl b) max-bit a k a b p q)

pub bit_xor-lt : (k a b : ℕ) → a < 2 ^ k → b < 2 ^ k → bit_xor a b < 2 ^ k
bit_xor-lt k a b p q =
    rw bit_xor-bitwise (digits-lt rest differ (λ b. le_refl b) differ-bit a k a b p q)

-- The low `k` digits, cut out by `k` ones.
digits_mask : (rounds k a : ℕ) → a ≤ rounds → digits none_left min rounds a (2 ^ k - 1) ≡ a % 2 ^ k
digits_mask zero k zero h = omega (arith, one-le-pow k 2)
digits_mask zero k (suc a) h = absurd (omega arith)
digits_mask (suc rounds) k zero h = omega (arith, one-le-pow k 2)
digits_mask (suc rounds) zero (suc a) h =
    omega (arith, mod-one (suc a), digits_mask rounds zero (suc a / 2) (omega arith))
digits_mask (suc rounds) (suc k) (suc a) h =
    let ones : (2 ^ suc k - 1) / 2 ≡ 2 ^ k - 1 = omega (arith, pow-suc 2 k, one-le-pow k 2) in
    let low : (2 ^ suc k - 1) % 2 ≡ 1 = omega (arith, pow-suc 2 k, one-le-pow k 2) in
    rw (ones, low)
      (omega (
        arith,
        digits_mask rounds k (suc a / 2) (omega arith),
        ap (λ (t : ℕ). suc a % t) (pow-suc' k),
        mod-mul (suc a) 2 (2 ^ k),
      ))
  where
    pow-suc' : (k : ℕ) → 2 ^ suc k ≡ 2 * 2 ^ k
    pow-suc' k = omega (arith, pow-suc 2 k)

-- A mask of `k` low bits is the remainder by `2 ^ k`.
pub bit_and_mask : (k a : ℕ) → bit_and a (2 ^ k - 1) ≡ a % 2 ^ k
bit_and_mask k a = rw bit_and-bitwise (digits_mask a k a (le_refl a))

digits_zero : (rounds a : ℕ) → a ≤ rounds → digits rest max rounds a 0 ≡ a
digits_zero zero zero h = refl
digits_zero zero (suc a) h = absurd (omega arith)
digits_zero (suc rounds) zero h = refl
digits_zero (suc rounds) (suc a) h = omega (arith, digits_zero rounds (suc a / 2) (omega arith))

-- Digits above bit `k` and digits below it do not meet.
digits_join :
    (rounds k q a r : ℕ)
    → a ≡ q * 2 ^ k
    → a ≤ rounds
    → r < 2 ^ k
    → digits rest max rounds a r ≡ a + r
digits_join rounds zero q a zero e h l = omega (arith, digits_zero rounds a h)
digits_join rounds zero q a (suc r) e h l = absurd (omega arith)
digits_join zero (suc k) q zero r e h l = omega arith
digits_join zero (suc k) q (suc a) r e h l = absurd (omega arith)
digits_join (suc rounds) (suc k) q zero r e h l = omega arith
digits_join (suc rounds) (suc k) q (suc a) r e h l =
    let twice : q * 2 ^ suc k ≡ 2 * (q * 2 ^ k) =
      omega (arith, ap (λ (t : ℕ). q * t) (pow-suc 2 k)) in
    let below = pow-suc 2 k in
    omega
      (arith, digits_join rounds k q (suc a / 2) (r / 2) (omega arith) (omega arith) (omega arith))

-- `(q << k) | r` is a sum when `r` fits `k` bits.
pub bit_or_shifted : (k q r : ℕ) → r < 2 ^ k → bit_or (q * 2 ^ k) r ≡ q * 2 ^ k + r
bit_or_shifted k q r l =
    rw bit_or-bitwise (digits_join (q * 2 ^ k) k q (q * 2 ^ k) r refl (le_refl _) l)

-- The digit at bit `k`.
digits_bit :
    (rounds k a : ℕ) → a ≤ rounds → digits none_left min rounds a (2 ^ k) ≡ a / 2 ^ k % 2 * 2 ^ k
digits_bit zero k zero h = rw (zero-div (2 ^ k)) (sym (zero-mul (2 ^ k)))
digits_bit zero k (suc a) h = absurd (omega arith)
digits_bit (suc rounds) k zero h = rw (zero-div (2 ^ k)) (sym (zero-mul (2 ^ k)))
digits_bit (suc rounds) zero (suc a) h =
    omega (arith, mod-one (suc a / 2), digits_mask rounds zero (suc a / 2) (omega arith))
digits_bit (suc rounds) (suc k) (suc a) h =
    let half : 2 ^ suc k / 2 ≡ 2 ^ k = omega (arith, pow-suc 2 k) in
    let low : 2 ^ suc k % 2 ≡ 0 = omega (arith, pow-suc 2 k) in
    let deep : suc a / 2 / 2 ^ k ≡ suc a / 2 ^ suc k =
      div-div-eq-div-mul (suc a) 2 (2 ^ k)
      ∙ ap (λ (t : ℕ). suc a / t) (omega (arith, pow-suc 2 k)) in
    rw (half, low, digits_bit rounds k (suc a / 2) (omega arith), deep)
      (doubled (suc a / 2 ^ suc k % 2) (suc a % 2) k)
  where
    doubled : (t r k : ℕ) → t * 2 ^ k * 2 + min r 0 ≡ t * 2 ^ suc k
    doubled t r k = omega (arith, ap (λ (p : ℕ). t * p) (pow-suc 2 k))

-- A mask of one bit.
pub bit_and_bit : (k a : ℕ) → bit_and a (2 ^ k) ≡ a / 2 ^ k % 2 * 2 ^ k
bit_and_bit k a = rw bit_and-bitwise (digits_bit a k a (le_refl a))
