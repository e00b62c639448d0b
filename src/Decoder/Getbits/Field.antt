-- ===== src/Decoder/Getbits/Field.antt =====
-- What `vm_getbits` returns and notes, as arithmetic.
use native.Mathlib.Nat.{mod-lt, mod-eq_of_lt, one-le-pow, pow-le-pow_right}
use libdvdnav.Prelude.{
  ℕ, ◌+◌, ◌-◌, ◌*◌, ◌/◌, ◌%◌, ◌^◌, ◌≤◌, ◌<◌, ◌≡◌, refl, ap, ◌∙◌, bit_or, bit_and_mask, bit_and, ltb,
  ◌==◌, ◌||◌, arith, field, mod-div, every_from, test-every_from, ==_iff, u32, u64, shl, shr, true,
}
use libdvdnav.Decoder.State.{Machine, value}
use libdvdnav.Decoder.Getbits.{vm_getbits}

-- The instruction word with a field marked as read.
abbrev pub marked : Machine → ℕ → ℕ → Machine
marked s start count = record s {
  examined = bit_or s.examined ((2 ^ count - 1) * 2 ^ (start + 1 - count));
}

-- The masks of the code at all of its positions, by evaluation.
low_table : every_from 0 64 (λ s. shr (2 ^ 64 - 1) (63 - s) == 2 ^ (s + 1) - 1) ≡ true
unfolding every_from
low_table = refl

mask_table :
    every_from 0 64 (λ s. every_from 0 33 (λ c.
      ltb (s + 1) c
      || u64 (shl (shr (2 ^ (s + 1) - 1) (s + 1 - c)) (s + 1 - c))
        == (2 ^ c - 1) * 2 ^ (s + 1 - c)))
    ≡ true
unfolding every_from
mask_table = refl

low_mask : (s : ℕ) → s < 64 → shr (2 ^ 64 - 1) (63 - s) ≡ 2 ^ (s + 1) - 1
low_mask s h = (==_iff _ _).0 (test-every_from 0 64 _ s low_table (omega arith) h)

field_mask :
    (s c : ℕ)
    → s < 64
    → c ≤ 32
    → c ≤ s + 1
    → u64 (shl (shr (2 ^ (s + 1) - 1) (s + 1 - c)) (s + 1 - c)) ≡ (2 ^ c - 1) * 2 ^ (s + 1 - c)
field_mask s c h k l =
    let in_row = test-every_from 0 64 _ s mask_table (omega arith) h in
    let here = test-every_from 0 33 _ c in_row (omega arith) in ground arith

pub field-lt : (w s c : ℕ) → field w s c < 2 ^ c
field-lt w s c = mod-lt (w / 2 ^ (s + 1 - c)) (one-le-pow c 2 (omega arith))

field_value :
    (w s c : ℕ)
    → c ≤ 32
    → c ≤ s + 1
    → u32 (shr (bit_and w (2 ^ (s + 1) - 1)) (s + 1 - c)) ≡ field w s c
field_value w s c k l =
    let fits : 2 ^ c ≤ 2 ^ 32 = pow-le-pow_right {n = 2} (omega arith) k in
    rw bit_and_mask (
      ap (λ (t : ℕ). w % 2 ^ t / 2 ^ (s + 1 - c) % 2 ^ 32) (omega arith)
      ∙ ap (λ (t : ℕ). t % 2 ^ 32) (mod-div w (s + 1 - c) c)
      ∙ mod-eq_of_lt (omega (arith, field-lt w s c)))

-- In range, `vm_getbits` returns the field of the instruction, and marks it as examined.
pub vm_getbits_lem :
    (start count : ℕ) (s : Machine)
    → start < 64
    → 0 < count
    → count ≤ 32
    → count ≤ start + 1
    → vm_getbits start count s ≡ value (field s.instruction start count) (marked s start count)
unfolding vm_getbits
vm_getbits_lem start count s h p k l = ground (
  arith,
  low_mask start h,
  field_mask start count h k l,
  field_value s.instruction start count k l,
)
