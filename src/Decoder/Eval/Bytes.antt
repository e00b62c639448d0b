-- ===== src/Decoder/Eval/Bytes.antt =====
-- The eight bytes of a command and the word that `eval_command` makes of them.
use native.Mathlib.Nat.{div-add-mod'}
use libdvdnav.Prelude.{
  ℕ, ◌+◌, ◌*◌, ◌/◌, ◌%◌, ◌^◌, ◌<◌, ◌≡◌, refl, ◌∙◌, ap, bit_or, bit_or_shifted, arith,
}
use libdvdnav.Decoder.Eval.{VmCmd, assemble}

-- The bytes of a 64-bit word, highest first, as they stand on the disc.
unfoldable pub bytes_of : ℕ → VmCmd
bytes_of w = record {
  b0 = w / 2 ^ 56 % 256;
  b1 = w / 2 ^ 48 % 256;
  b2 = w / 2 ^ 40 % 256;
  b3 = w / 2 ^ 32 % 256;
  b4 = w / 2 ^ 24 % 256;
  b5 = w / 2 ^ 16 % 256;
  b6 = w / 2 ^ 8 % 256;
  b7 = w % 256;
}

-- Every byte is a `uint8_t`.
pub record AreBytes (c : VmCmd) : Type 0 where
  pub fits_0 : c.b0 < 256
  pub fits_1 : c.b1 < 256
  pub fits_2 : c.b2 < 256
  pub fits_3 : c.b3 < 256
  pub fits_4 : c.b4 < 256
  pub fits_5 : c.b5 < 256
  pub fits_6 : c.b6 < 256
  pub fits_7 : c.b7 < 256

-- One more byte: `x` is a sum already.
or_into : (k : ℕ) {x y : ℕ} (r : ℕ) → x ≡ y → (y % 2 ^ k ≡ 0) × (r < 2 ^ k) → bit_or x r ≡ y + r
or_into k {x} {y} r e h =
    let whole : y ≡ y / 2 ^ k * 2 ^ k = omega (arith, div-add-mod' y (2 ^ k)) in
    ap (λ (t : ℕ). bit_or t r) (e ∙ whole) ∙ bit_or_shifted k (y / 2 ^ k) r h.1 ∙ omega arith

-- The word is the big-endian number of the bytes.
pub assemble_sum :
    (c : VmCmd)
    → AreBytes c
    → assemble c
      ≡ c.b0 * 2 ^ 56
        + c.b1 * 2 ^ 48
        + c.b2 * 2 ^ 40
        + c.b3 * 2 ^ 32
        + c.b4 * 2 ^ 24
        + c.b5 * 2 ^ 16
        + c.b6 * 2 ^ 8
        + c.b7
unfolding assemble
assemble_sum c h =
    let s0 : c.b0 * 2 ^ 56 ≡ c.b0 * 2 ^ 56 = refl in
    let s1 = or_into 56 (c.b1 * 2 ^ 48) s0 (omega arith) in
    let s2 = or_into 48 (c.b2 * 2 ^ 40) s1 (omega arith) in
    let s3 = or_into 40 (c.b3 * 2 ^ 32) s2 (omega arith) in
    let s4 = or_into 32 (c.b4 * 2 ^ 24) s3 (omega arith) in
    let s5 = or_into 24 (c.b5 * 2 ^ 16) s4 (omega arith) in
    let s6 = or_into 16 (c.b6 * 2 ^ 8) s5 (omega arith) in or_into 8 c.b7 s6 (omega arith)

bytes_of-AreBytes : (w : ℕ) → AreBytes (bytes_of w)
unfolding bytes_of
bytes_of-AreBytes w = omega arith

-- Writing a 64-bit word as eight bytes and assembling them gives the word back.
pub assemble-bytes_of : (w : ℕ) → w < 2 ^ 64 → assemble (bytes_of w) ≡ w
unfolding bytes_of
assemble-bytes_of w h = assemble_sum (bytes_of w) (bytes_of-AreBytes w) ∙ omega arith
