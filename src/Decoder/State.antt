-- ===== src/Decoder/State.antt =====
-- vm/decoder.h: the link commands, a link, the registers and the command under evaluation; and the
-- monad in which vm/decoder.c is written. The code updates `*command`, `*registers` and
-- `*return_values` in place; here they are the fields of one `Machine` that is passed on.
use libdvdnav.Prelude.{Bool, true, false, ℕ, ◌+◌, Option, none, some, List, set, u16}

-- `link_cmd_t`. The code stores any 5-bit number in a variable of this type: `unnamed` is a value
-- that no enumerator has.
pub data LinkCmd : Type 0 where
  link_no_link : LinkCmd
  link_top_c link_next_c link_prev_c : LinkCmd
  link_top_pg link_next_pg link_prev_pg : LinkCmd
  link_top_pgc link_next_pgc link_prev_pgc link_go_up_pgc link_tail_pgc : LinkCmd
  link_rsm : LinkCmd
  link_pgcn link_pttn link_pgn link_cn : LinkCmd
  exit : LinkCmd
  jump_tt jump_vts_tt jump_vts_ptt : LinkCmd
  jump_ss_fp jump_ss_vmgm_menu jump_ss_vtsm jump_ss_vmgm_pgc : LinkCmd
  call_ss_fp call_ss_vmgm_menu call_ss_vtsm call_ss_vmgm_pgc : LinkCmd
  play_this : LinkCmd
  unnamed : ℕ → LinkCmd

-- `link_t`.
pub record Link : Type 0 where
  pub command : LinkCmd
  pub data1 : ℕ  -- uint16_t
  pub data2 : ℕ  -- uint16_t
  pub data3 : ℕ  -- uint16_t

-- What `memset(return_values, 0, sizeof(link_t))` leaves.
abbrev pub no_link : Link
no_link = record { command = link_no_link; data1 = 0; data2 = 0; data3 = 0 }

-- `struct timeval`; the seconds are the bit pattern of a 64-bit `time_t`.
pub record Timeval : Type 0 where
  pub tv_sec : ℕ
  pub tv_usec : ℕ

-- `registers_t`: 24 system and 16 general registers, and the mode and start time of each of the
-- latter.
pub record Registers : Type 0 where
  pub sprm : List ℕ
  pub gprm : List ℕ
  pub gprm_mode : List ℕ
  pub gprm_time : List Timeval

-- What the surroundings answer: the n-th call of `gettimeofday`, and of `rand`.
pub record World : Type 0 where
  pub clock : ℕ → Timeval
  pub random : ℕ → ℕ
  pub clock_reads : ℕ
  pub random_reads : ℕ

-- `command_t`, its registers, `*return_values` and the surroundings.
pub record Machine : Type 0 where
  pub instruction : ℕ
  pub examined : ℕ
  pub registers : Registers
  pub return_values : Link
  pub world : World

-- `aborted` is a call of `abort`, `fault` an access outside an array.
pub data Result (A : Type 0) : Type 0 where
  value : A → Machine → Result A
  aborted fault : Result A

abbrev pub M : Type 0 → Type 0
M A = Machine → Result A

abbrev then_do : {A B : Type 0} → Result A → (A → M B) → Result B
then_do (value a s) f = f a s
then_do aborted f = aborted
then_do fault f = fault

unfoldable pub pure : {A : Type 0} → A → M A
pure a s = value a s

unfoldable pub abort : {A : Type 0} → M A
abort s = aborted

-- An element of an array, and a fault past its end.
unfoldable pub element : {A : Type 0} → Option A → M A
element none s = fault
element (some a) s = value a s

unfoldable pub gettimeofday : M Timeval
gettimeofday s =
    let w = s.world in
    value (w.clock w.clock_reads)
      (record s { world = record w { clock_reads = w.clock_reads + 1 } })

unfoldable pub rand : M ℕ
rand s =
    let w = s.world in
    value (w.random w.random_reads)
      (record s { world = record w { random_reads = w.random_reads + 1 } })

unfoldable pub get_registers : M Registers
get_registers s = value s.registers s

unfoldable pub put_registers : Registers → M (Unit {0})
put_registers r s = value tt (record s { registers = r })

unfoldable pub put_return_values : Link → M (Unit {0})
put_return_values l s = value tt (record s { return_values = l })

-- `if` between actions. It is shut, so that a proof can tell an `if` of the code by its form.
infix 1 when◌then◌else◌
unfoldable pub when◌then◌else◌ : {A : Type 0} → Bool → M A → M A → M A
when true then m else n = m
when false then m else n = n

-- To open this is to open the actions above, too.
infixl 5 ◌>>=◌ ◌>>◌
unfoldable pub ◌>>=◌ : {A B : Type 0} → M A → (A → M B) → M B
unfolding when◌then◌else◌ pure abort element gettimeofday rand get_registers put_registers
    put_return_values
◌>>=◌ m f s = then_do (m s) f

abbrev pub ◌>>◌ : {B : Type 0} → M (Unit {0}) → M B → M B
m >> k = m >>= λ _. k

-- `registers->SPRM[i] = v`.
unfoldable pub set_sprm : ℕ → ℕ → M (Unit {0})
set_sprm i v = do r ← get_registers; put_registers (record r { sprm = set r.sprm i (u16 v) })
