-- ===== src/Decoder/Getbits.antt =====
-- vm/decoder.c: `vm_getbits`, which cuts a field out of the 64-bit instruction and notes in
-- `examined` that it has been read.
pub mod Field
use libdvdnav.Prelude.{
  ℕ, ◌+◌, ◌-◌, ◌^◌, bit_and, bit_or, ltb, ◌==◌, ◌||◌, if◌then◌else◌, u32, u64, shl, shr,
}
use libdvdnav.Decoder.State.{Machine, M, value, aborted}

-- The arguments are natural numbers at every call, so the tests for negative ones are left out;
-- `start - count < -1` is `start + 1 < count`.
unfoldable pub vm_getbits : ℕ → ℕ → M ℕ
vm_getbits start count s =
    if count == 0
    then value 0 s
    else if ltb (start + 1) count || ltb 32 count || ltb 63 start
    then aborted
    else let bit_mask = shr (2 ^ 64 - 1) (63 - start) in
      let bits = start + 1 - count in
      let examining = u64 (shl (shr bit_mask bits) bits) in
      value (u32 (shr (bit_and s.instruction bit_mask) bits))
        (record s { examined = bit_or s.examined examining })
