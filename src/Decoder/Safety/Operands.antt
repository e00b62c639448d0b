-- ===== src/Decoder/Safety/Operands.antt =====
-- Reading and writing registers is total: `get_GPRM`, `set_GPRM`, `eval_reg`, `eval_reg_or_data`
-- and `eval_reg_or_data_2` of vm/decoder.c.
use native.Mathlib.Nat.{mod-eq_of_lt}
use libdvdnav.Prelude.{
  ℕ, subst, false, ◌-◌, ◌^◌, ◌<◌, ◌≡◌, refl, inl, true, leb, ◌==◌, ◌||◌, [], ◌∷◌, truth,
  if◌then◌else◌, List, length, get_elem?, set, length-set, All, All-set, field, u8, u16, bit_and,
  bit_or, bit_and-lt, bit_or-lt, bit_and_mask, every_from, test-every_from, arith,
}
use libdvdnav.Decoder.State.{Registers, Timeval, element}
use libdvdnav.Decoder.Getbits.Field.{field-lt}
use libdvdnav.Decoder.Registers.{get_gprm, set_gprm, eval_reg, eval_reg_or_data, eval_reg_or_data_2}
use libdvdnav.Decoder.Sets.{set_mode}
use libdvdnav.Decoder.Safety.{IsSound, IsOperand, Register, Total}
use libdvdnav.Decoder.Safety.Rules.{
  Any, bind, return, branch, at, registers, put, clock, bits, in_range,
}

abbrev pub Half : ℕ → Type 0
Half v = v < 2 ^ 16

IsSound-gprm :
    {r : Registers} (i v : ℕ)
    → IsSound r
    → v < 2 ^ 16
    → IsSound (record r { gprm = set r.gprm i v })
IsSound-gprm {r} i v ok h = record {
  sprm_size = ok.sprm_size;
  gprm_size = omega (arith, ok, length-set r.gprm i v);
  mode_size = ok.mode_size;
  time_size = ok.time_size;
  sprm_fit = ok.sprm_fit;
  gprm_fit = All-set Half r.gprm i v ok.gprm_fit h;
  mode_fit = ok.mode_fit;
}

IsSound-time :
    {r : Registers} (i : ℕ) (t : Timeval)
    → IsSound r
    → IsSound (record r { gprm_time = set r.gprm_time i t })
IsSound-time {r} i t ok = record {
  sprm_size = ok.sprm_size;
  gprm_size = ok.gprm_size;
  mode_size = ok.mode_size;
  time_size = omega (arith, ok, length-set r.gprm_time i t);
  sprm_fit = ok.sprm_fit;
  gprm_fit = ok.gprm_fit;
  mode_fit = ok.mode_fit;
}

IsSound-mode :
    {r : Registers} (i v : ℕ)
    → IsSound r
    → v < 2 ^ 8
    → IsSound (record r { gprm_mode = set r.gprm_mode i v })
IsSound-mode {r} i v ok h = record {
  sprm_size = ok.sprm_size;
  gprm_size = ok.gprm_size;
  mode_size = omega (arith, ok, length-set r.gprm_mode i v);
  time_size = ok.time_size;
  sprm_fit = ok.sprm_fit;
  gprm_fit = ok.gprm_fit;
  mode_fit = All-set (λ x. x < 2 ^ 8) r.gprm_mode i v ok.mode_fit h;
}

u16-lt : (n : ℕ) → u16 n < 2 ^ 16
u16-lt n = omega arith

All-trivial : (l : List Timeval) → All (λ _. Unit {0}) l
All-trivial [] = tt
All-trivial (x ∷ l) = (tt, All-trivial l)

-- A byte below 128 has its high bit clear.
high_bit : every_from 0 256 (λ b. bit_and b 0x80 == 0 || leb 128 b) ≡ true
unfolding every_from
high_bit = refl

-- A four-bit field names a general register.
pub nibble : (w start v : ℕ) → v ≡ field w start 4 → u8 v < 16
nibble w start v e = omega (arith, field-lt w start 4)

pub nibble-lt : (w start v : ℕ) → v ≡ field w start 4 → v < 16
nibble-lt w start v e = omega (arith, field-lt w start 4)

module _ {w : ℕ} where
  mode :
      {r : Registers} {reg : ℕ}
      → IsSound r
      → reg < 16
      → Total w (λ x. x < 2 ^ 8) (element (get_elem? r.gprm_mode reg))
  mode {r} {reg} ok l = at w (λ x. x < 2 ^ 8) r.gprm_mode reg ok.mode_fit (omega (arith, ok))

  pub get_gprm-Total : (reg : ℕ) → reg < 16 → Total w Half (get_gprm reg)
  unfolding get_gprm
  get_gprm-Total reg l = bind w (registers w) λ r ok. bind w (mode ok l) λ m _.
      branch w
        (λ _. bind w (clock w) λ t _.
          bind w (at w (λ _. Unit {0}) r.gprm_time reg (All-trivial _) (omega (arith, ok)))
            λ t' _. bind w (put w (IsSound-gprm reg _ ok (u16-lt _))) λ _ _. return w _ (u16-lt _))
        (λ _. at w Half r.gprm reg ok.gprm_fit (omega (arith, ok)))

  pub set_gprm-Total : (reg v : ℕ) → reg < 16 → Total w Any (set_gprm reg v)
  unfolding set_gprm
  set_gprm-Total reg v l = bind w (registers w) λ r ok. bind w (mode ok l) λ m _.
      branch w
        (λ _. bind w (clock w) λ t _. put w (IsSound-time reg _ (IsSound-gprm reg _ ok (u16-lt _))))
        (λ _. put w (IsSound-gprm reg _ ok (u16-lt _)))

  pub set_mode-Total : (reg counter : ℕ) → reg < 16 → Total w Any (set_mode reg counter)
  unfolding set_mode
  set_mode-Total reg counter l =
      bind w (registers w)
        λ r ok. bind w (mode ok l) λ m fits. put w (IsSound-mode reg _ ok (mode_bound m fits))
    where
      mode_bound :
          (m : ℕ) → m < 2 ^ 8 → (if truth counter then bit_or m 1 else bit_and m 0xfe) < 2 ^ 8
      mode_bound m h =
          ground (arith, bit_or-lt 8 m 1 h (omega arith), bit_and-lt 8 m 0xfe h (omega arith))

  pub eval_reg-Total : (b : ℕ) → b < 256 → IsOperand b → Total w Half (eval_reg b)
  unfolding eval_reg
  eval_reg-Total b small operand =
      branch w
        (λ high. bind w (registers w) λ r ok. at w Half r.sprm _ ok.sprm_fit (in_sprm ok high))
        (λ _. get_gprm-Total _ (omega (arith, bit_and_mask 4 b)))
    where
      in_sprm :
          {r : Registers}
          → IsSound r
          → truth (bit_and b 0x80) ≡ true
          → bit_and b 0x1f < length r.sprm
      in_sprm ok high =
          ground
            (arith, ok, bit_and_mask 5 b, test-every_from 0 256 _ b high_bit (omega arith) small)

  pub operand-Total :
      (start v : ℕ)
      → IsOperand (field w start 8)
      → v ≡ field w start 8
      → Total w Half (eval_reg (u8 v))
  operand-Total start v operand e =
      let small : v < 2 ^ 8 = rw e (field-lt w start 8) in
      rw (mod-eq_of_lt small, e) (eval_reg-Total (field w start 8) (field-lt w start 8) operand)

  pub eval_reg_or_data-Total :
      (flag imm start : ℕ)
      → imm ≡ field w flag 1
      → Register w flag (start - 8)
      → in_range w start 16 ≡ true
      → in_range w (start - 8) 8 ≡ true
      → Total w Half (eval_reg_or_data imm start)
  unfolding eval_reg_or_data
  eval_reg_or_data-Total flag imm start e register p q =
      branch w (λ _. bind w (bits w start 16 p) λ d _. return w _ (u16-lt d))
        (λ clear.
          bind w (bits w (start - 8) 8 q)
            λ v f. operand-Total (start - 8) v (register (subst (λ i. truth i ≡ false) e clear)) f)

  pub eval_reg_or_data_2-Total :
      (imm start : ℕ)
      → in_range w (start - 1) 7 ≡ true
      → in_range w (start - 4) 4 ≡ true
      → Total w Half (eval_reg_or_data_2 imm start)
  unfolding eval_reg_or_data_2
  eval_reg_or_data_2-Total imm start p q =
      branch w (λ _. bind w (bits w (start - 1) 7 p) λ d _. return w _ (u16-lt d))
        (λ _. bind w (bits w (start - 4) 4 q) λ v e. get_gprm-Total _ (nibble w (start - 4) v e))

  -- A four-bit operand is a general register.
  pub nibble-Total : (start v : ℕ) → v ≡ field w start 4 → Total w Half (eval_reg (u8 v))
  nibble-Total start v e =
      let small = nibble w start v e in eval_reg-Total _ (omega arith) (inl (omega arith))
