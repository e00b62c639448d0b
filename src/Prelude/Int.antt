-- ===== src/Prelude/Int.antt =====
-- Signed integers over the native numbers, for C's `int`.
use Prim.Native.Nat.{ℕ, zero, suc, ◌+◌, ◌-◌, ◌%◌, ◌^◌}
use mathlib.Core.Bool.{Bool, true, false}
use libdvdnav.Prelude.Tests.{ltb, ◌==◌, if◌then◌else◌}

-- `negsuc n` is -(n + 1).
pub data ℤ : Type 0 where
  pos : ℕ → ℤ
  negsuc : ℕ → ℤ

-- The test `a < b` on two `int`s.
abbrev pub int_ltb : ℤ → ℤ → Bool
int_ltb (pos a) (pos b) = ltb a b
int_ltb (pos _) (negsuc _) = false
int_ltb (negsuc _) (pos _) = true
int_ltb (negsuc a) (negsuc b) = ltb b a

abbrev pub int_eqb : ℤ → ℤ → Bool
int_eqb (pos a) (pos b) = a == b
int_eqb (pos _) (negsuc _) = false
int_eqb (negsuc _) (pos _) = false
int_eqb (negsuc a) (negsuc b) = a == b

-- The cast to `int16_t`.
unfoldable pub int16 : ℕ → ℤ
int16 n = if ltb (n % 2 ^ 16) 0x8000 then pos (n % 2 ^ 16) else negsuc (0xffff - n % 2 ^ 16)

abbrev pub int_suc : ℤ → ℤ
int_suc (pos a) = pos (suc a)
int_suc (negsuc zero) = pos 0
int_suc (negsuc (suc a)) = negsuc a

abbrev pub int_pred : ℤ → ℤ
int_pred (pos zero) = negsuc 0
int_pred (pos (suc a)) = pos a
int_pred (negsuc a) = negsuc (suc a)

-- The cast to `int32_t` of 32 bits.
unfoldable pub int32 : ℕ → ℤ
int32 n = if ltb n (2 ^ 31) then pos n else negsuc (2 ^ 32 - 1 - n)

abbrev pub int_add : ℤ → ℤ → ℤ
int_add (pos a) (pos b) = pos (a + b)
int_add (pos a) (negsuc b) = if ltb b a then pos (a - suc b) else negsuc (b - a)
int_add (negsuc a) (pos b) = if ltb a b then pos (b - suc a) else negsuc (a - b)
int_add (negsuc a) (negsuc b) = negsuc (suc (a + b))

-- The bits of a conversion to 32 bits.
abbrev pub to_u32 : ℤ → ℕ
to_u32 (pos n) = n % 2 ^ 32
to_u32 (negsuc n) = 2 ^ 32 - 1 - n % 2 ^ 32
