-- ===== src/Decoder/Compare.antt =====
-- vm/decoder.c: the comparisons of conditional instructions. A condition is an `int`, true if it is
-- not 0. The arguments of `eval_compare` are evaluated from left to right.
pub mod Meaning
use libdvdnav.Prelude.{ℕ, Bool, bit_and, ltb, leb, ◌==◌, ◌!=◌, truth, if◌then◌else◌, u8, u16}
use libdvdnav.Decoder.State.{M, ◌>>=◌, when◌then◌else◌, pure}
use libdvdnav.Decoder.Getbits.{vm_getbits}
use libdvdnav.Decoder.Registers.{eval_reg, eval_reg_or_data}

-- The `int` that a C comparison gives.
abbrev pub flag : Bool → ℕ
flag b = if b then 1 else 0

unfoldable pub eval_compare : ℕ → ℕ → ℕ → ℕ
eval_compare operation data1 data2 =
    if operation == 1
    then bit_and data1 data2
    else if operation == 2
    then flag (data1 == data2)
    else if operation == 3
    then flag (data1 != data2)
    else if operation == 4
    then flag (leb data2 data1)
    else if operation == 5
    then flag (ltb data2 data1)
    else if operation == 6
    then flag (leb data1 data2)
    else if operation == 7
    then flag (ltb data1 data2)
    else 0

unfoldable pub eval_if_version_1 : M ℕ
eval_if_version_1 = do
  op ← vm_getbits 54 3
  when truth (u8 op)
      then (do
        r ← vm_getbits 39 8
        a ← eval_reg (u8 r)
        imm ← vm_getbits 55 1
        b ← eval_reg_or_data imm 31
        pure (eval_compare (u8 op) a b))
      else pure 1

unfoldable pub eval_if_version_2 : M ℕ
eval_if_version_2 = do
  op ← vm_getbits 54 3
  when truth (u8 op)
      then (do
        r ← vm_getbits 15 8
        a ← eval_reg (u8 r)
        q ← vm_getbits 7 8
        b ← eval_reg (u8 q)
        pure (eval_compare (u8 op) a b))
      else pure 1

unfoldable pub eval_if_version_3 : M ℕ
eval_if_version_3 = do
  op ← vm_getbits 54 3
  when truth (u8 op)
      then (do
        r ← vm_getbits 47 8
        a ← eval_reg (u8 r)
        imm ← vm_getbits 55 1
        b ← eval_reg_or_data imm 15
        pure (eval_compare (u8 op) a b))
      else pure 1

unfoldable pub eval_if_version_4 : M ℕ
eval_if_version_4 = do
  op ← vm_getbits 54 3
  when truth (u8 op)
      then (do
        r ← vm_getbits 51 4
        a ← eval_reg (u8 r)
        imm ← vm_getbits 55 1
        b ← eval_reg_or_data imm 31
        pure (eval_compare (u8 op) a b))
      else pure 1
