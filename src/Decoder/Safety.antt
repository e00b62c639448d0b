-- ===== src/Decoder/Safety.antt =====
-- The invariant of the interpreter's state, and what it means for an action of vm/decoder.c to be
-- total: it returns, and keeps the invariant.
pub mod Rules
pub mod Operands
pub mod Branches
pub mod Command
pub mod Program
use libdvdnav.Prelude.{
  ℕ, ◌+◌, ◌-◌, ◌%◌, ◌^◌, ◌≤◌, ◌<◌, ◌≡◌, ◌⊎◌, List, length, All, field, truth, true, false,
}
use libdvdnav.Decoder.State.{Link, Registers, Machine, Result, value, M}

-- The arrays of `registers_t` have their sizes, and their elements the width of their types.
pub record IsSound (r : Registers) : Type 0 where
  pub sprm_size : length r.sprm ≡ 24
  pub gprm_size : length r.gprm ≡ 16
  pub mode_size : length r.gprm_mode ≡ 16
  pub time_size : length r.gprm_time ≡ 16
  pub sprm_fit : All (λ x. x < 2 ^ 16) r.sprm
  pub gprm_fit : All (λ x. x < 2 ^ 16) r.gprm
  pub mode_fit : All (λ x. x < 2 ^ 8) r.gprm_mode

pub record Fits (l : Link) : Type 0 where
  pub data1_fits : l.data1 < 2 ^ 16
  pub data2_fits : l.data2 < 2 ^ 16
  pub data3_fits : l.data3 < 2 ^ 16

-- A register operand: a general register, or one of the 24 system registers.
abbrev pub IsOperand : ℕ → Type 0
IsOperand b = (b < 128) ⊎ (b % 32 < 24)

-- Unless bit `flag` says that it is an immediate, the operand is a register.
abbrev pub Register : (w flag start : ℕ) → Type 0
Register w flag start = truth (field w flag 1) ≡ false → IsOperand (field w start 8)

-- The instruction has a comparison.
abbrev pub Compares : ℕ → Type 0
Compares w = truth (field w 54 3) ≡ true

-- The operands that each form of the comparison reads as registers. A form with four bits for a
-- register names a general one.
pub record If1 (w : ℕ) : Type 0 where
  pub left : IsOperand (field w 39 8)
  pub right : Register w 55 23

pub record If2 (w : ℕ) : Type 0 where
  pub left : IsOperand (field w 15 8)
  pub right : IsOperand (field w 7 8)

pub record If3 (w : ℕ) : Type 0 where
  pub left : IsOperand (field w 47 8)
  pub right : Register w 55 7

-- The operand of an instruction that sets a system register: the timer, a counter, the button.
pub record System (w : ℕ) : Type 0 where
  pub timer : field w 59 4 ≡ 2 → Register w 60 39
  pub counter : field w 59 4 ≡ 3 → Register w 60 39
  pub button : field w 59 4 ≡ 6 → Register w 60 23

-- The register operands that the instruction reads, by its type, do name registers.
pub record NamesRegisters (w : ℕ) : Type 0 where
  pub special : field w 63 3 ≡ 0 → Compares w → If1 w
  pub jump : field w 63 3 ≡ 1 → truth (field w 60 1) ≡ true → Compares w → If2 w
  pub link : field w 63 3 ≡ 1 → truth (field w 60 1) ≡ false → Compares w → If1 w
  pub system_if : field w 63 3 ≡ 2 → Compares w → If2 w
  pub system : field w 63 3 ≡ 2 → System w
  pub set_if : field w 63 3 ≡ 3 → Compares w → If3 w
  pub set_operand : field w 63 3 ≡ 3 → Register w 60 23
  pub sublink_if : 4 ≤ field w 63 3 → Compares w → Register w 55 23
  pub sublink_operand : 4 ≤ field w 63 3 → Register w 60 39

-- While the instruction `w` is evaluated.
pub record During (w : ℕ) (s : Machine) : Type 0 where
  pub word : s.instruction ≡ w
  pub sound : IsSound s.registers
  pub fits : Fits s.return_values

pub data Returns {A : Type 0} (Q : A → Machine → Type 0) : Result A → Type 0 where
  returns : {a : A} {s : Machine} → Q a s → Returns Q (value a s)

-- Started within instruction `w`, `m` neither aborts nor faults, keeps the invariant, and returns a
-- value of which `Q` holds.
pub record Total (w : ℕ) {A : Type 0} (Q : A → Type 0) (m : M A) : Type 0 where
  pub run : (s : Machine) → During w s → Returns (λ a s'. Q a × During w s') (m s)
