-- ===== src/Decoder/Registers.antt =====
-- vm/decoder.c: reading and writing the general registers, in register and in counter mode, and
-- the operands of an instruction.
pub mod Counter
use libdvdnav.Prelude.{
  ℕ, ◌+◌, ◌-◌, bit_and, ltb, truth, if◌then◌else◌, get_elem?, set, u8, u16, sub64,
}
use libdvdnav.Decoder.State.{
  M, ◌>>=◌, when◌then◌else◌, ◌>>◌, pure, element, Timeval, get_registers, put_registers,
  gettimeofday,
}
use libdvdnav.Decoder.Getbits.{vm_getbits}

-- The seconds that have passed, with a borrow from the microseconds.
unfoldable pub elapsed : Timeval → Timeval → ℕ
elapsed now since =
    let sec = sub64 now.tv_sec since.tv_sec in
    if ltb now.tv_usec since.tv_usec then sub64 sec 1 else sec

unfoldable pub get_gprm : ℕ → M ℕ
get_gprm reg = do
  r ← get_registers
  mode ← element (get_elem? r.gprm_mode reg)
  when truth (bit_and mode 0x01)
      then (do
        current_time ← gettimeofday
        since ← element (get_elem? r.gprm_time reg)
        let result = u16 (bit_and (elapsed current_time since) 0xffff)
        put_registers (record r { gprm = set r.gprm reg result })
        pure result)
      else element (get_elem? r.gprm reg)

-- The parameter is a `uint16_t`: the argument is cut to 16 bits.
unfoldable pub set_gprm : ℕ → ℕ → M (Unit {0})
set_gprm reg arg = do
  let value = u16 arg
  r ← get_registers
  mode ← element (get_elem? r.gprm_mode reg)
  when truth (bit_and mode 0x01)
      then (do
        current_time ← gettimeofday
        let start = record current_time { tv_sec = sub64 current_time.tv_sec value }
        put_registers
            (record r { gprm = set r.gprm reg value; gprm_time = set r.gprm_time reg start }))
      else put_registers (record r { gprm = set r.gprm reg value })

-- There are 24 system registers, and the index goes up to 31: the rest is a fault.
unfoldable pub eval_reg : ℕ → M ℕ
eval_reg reg =
    when truth (bit_and reg 0x80)
    then (do r ← get_registers; element (get_elem? r.sprm (bit_and reg 0x1f)))
    else get_gprm (bit_and reg 0x0f)

unfoldable pub eval_reg_or_data : ℕ → ℕ → M ℕ
eval_reg_or_data imm start =
    when truth imm
    then (do d ← vm_getbits start 16; pure (u16 d))
    else (do reg ← vm_getbits (start - 8) 8; eval_reg (u8 reg))

unfoldable pub eval_reg_or_data_2 : ℕ → ℕ → M ℕ
eval_reg_or_data_2 imm start =
    when truth imm
    then (do d ← vm_getbits (start - 1) 7; pure (u16 d))
    else (do reg ← vm_getbits (start - 4) 4; get_gprm (u8 reg))
