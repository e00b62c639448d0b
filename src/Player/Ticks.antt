-- ===== src/Player/Ticks.antt =====
-- dvdnav_convert_time of dvdnav.c on times written in decimal digits.
use libdvdnav.Prelude.{
  Bool, true, false, if◌then◌else◌, ◌==◌, le→leb, leb, ltb, truth, every_from, test-every_from,
  bit_and_mask, ℕ, ◌+◌, ◌*◌, ◌/◌, ◌%◌, ◌<◌, ◌≡◌, refl, ◌∙◌, arith, bit_and, shr, ==_iff,
}
use libdvdnav.Vm.Disc.{DvdTime}
use libdvdnav.Player.Time.{dvdnav_convert_time}

-- A byte with two digits.
abbrev pub digits : (high low : ℕ) → ℕ
digits high low = 16 * high + low

high_digit : (h l : ℕ) → l < 16 → shr (digits h l) 4 ≡ h
high_digit h l small = omega arith

low_digit : (h l : ℕ) → l < 16 → bit_and (digits h l) 0x0f ≡ l
low_digit h l small = bit_and_mask 4 (digits h l) ∙ omega arith

-- The frames of a byte, and its frame rate.
abbrev frames_of : ℕ → ℕ
frames_of b = shr (bit_and b 0x30) 4 * 10 + bit_and b 0x0f

rate_test :
    (b : ℕ)
    → (if truth (bit_and b 0x80) then leb 128 b else ltb b 128) ≡ true
    → truth (bit_and b 0x80) ≡ leb 128 b
rate_test b h = ground (arith, h)

frames_test :
    (b : ℕ)
    → b < 256
    → (frames_of b ≡ b / 16 % 4 * 10 + b % 16) × (truth (bit_and b 0x80) ≡ leb 128 b)
unfolding every_from
frames_test b small = (
  (==_iff (frames_of b) (b / 16 % 4 * 10 + b % 16)).0 (
      test-every_from 0 256 (λ b. frames_of b == b / 16 % 4 * 10 + b % 16) b refl (omega arith)
        (omega arith)),
  rate_test b (
      test-every_from 0 256 (λ b. if truth (bit_and b 0x80) then leb 128 b else ltb b 128) b refl
        (omega arith) (omega arith)),
)

gt→leb : (a b : ℕ) → b < a → leb a b ≡ false
gt→leb a b h = ground arith

-- The frame rates of 25 and 30 a second.
abbrev pub rate_bits : (thirty : Bool) → ℕ
rate_bits thirty = if thirty then 0xc0 else 0x40

abbrev pub frame_ticks : (thirty : Bool) → ℕ
frame_ticks thirty = if thirty then 3000 else 3600

abbrev pub time_of : (thirty : Bool) (h1 h0 m1 m0 s1 s0 f1 f0 : ℕ) → DvdTime
time_of thirty h1 h0 m1 m0 s1 s0 f1 f0 = record {
  hour = digits h1 h0;
  minute = digits m1 m0;
  second = digits s1 s0;
  frame_u = rate_bits thirty + digits f1 f0;
}

-- A time in digits is so many ticks of a 90000th of a second.
pub dvdnav_convert_time_lem :
    (thirty : Bool) (h1 h0 m1 m0 s1 s0 f1 f0 : ℕ)
    → h0 < 16
    → m0 < 16
    → s0 < 16
    → f1 < 4
    → f0 < 16
    → dvdnav_convert_time (time_of thirty h1 h0 m1 m0 s1 s0 f1 f0)
      ≡ ((10 * h1 + h0) * 3600 + (10 * m1 + m0) * 60 + (10 * s1 + s0)) * 90000
        + (10 * f1 + f0) * frame_ticks thirty
unfolding dvdnav_convert_time
dvdnav_convert_time_lem true h1 h0 m1 m0 s1 s0 f1 f0 small_h small_m small_s small_f1 small_f0 =
    let (frames, rate) = frames_test (0xc0 + digits f1 f0) (omega arith) in
    rw
      (
        high_digit h1 h0 small_h,
        low_digit h1 h0 small_h,
        high_digit m1 m0 small_m,
        low_digit m1 m0 small_m,
        high_digit s1 s0 small_s,
        low_digit s1 s0 small_s,
        frames,
        rate,
        le→leb 128 (0xc0 + digits f1 f0) (omega arith),
      )
      (omega arith)
dvdnav_convert_time_lem false h1 h0 m1 m0 s1 s0 f1 f0 small_h small_m small_s small_f1 small_f0 =
    let (frames, rate) = frames_test (0x40 + digits f1 f0) (omega arith) in
    rw
      (
        high_digit h1 h0 small_h,
        low_digit h1 h0 small_h,
        high_digit m1 m0 small_m,
        low_digit m1 m0 small_m,
        high_digit s1 s0 small_s,
        low_digit s1 s0 small_s,
        frames,
        rate,
        gt→leb 128 (0x40 + digits f1 f0) (omega arith),
      )
      (omega arith)
