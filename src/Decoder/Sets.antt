-- ===== src/Decoder/Sets.antt =====
-- vm/decoder.c: the instructions that set registers.
pub mod Floats
pub mod Arithmetic
use libdvdnav.Prelude.{
  ℕ, ◌+◌, ◌-◌, ◌*◌, ◌/◌, ◌%◌, ◌^◌, bit_and, bit_or, bit_xor, ltb, leb, ◌==◌, ◌!=◌, truth,
  if◌then◌else◌, List, [], ◌∷◌, get_elem?, set, u8, u16,
}
use libdvdnav.Decoder.State.{
  Machine, M, ◌>>=◌, when◌then◌else◌, ◌>>◌, pure, element, get_registers, put_registers, rand,
  set_sprm,
}
use libdvdnav.Decoder.Getbits.{vm_getbits}
use libdvdnav.Decoder.Registers.{get_gprm, set_gprm, eval_reg_or_data, eval_reg_or_data_2}
use libdvdnav.Decoder.Links.{eval_link_instruction}
use libdvdnav.Decoder.Sets.Floats.{scaled_random}

-- The body of the loop over the audio, subpicture and angle registers.
unfoldable pub set_stream : ℕ → ℕ → M (Unit {0})
set_stream cond i = do
  present ← vm_getbits (63 - (2 + i) * 8) 1
  when truth present
      then (do
        imm ← vm_getbits 60 1
        d ← eval_reg_or_data_2 imm (47 - i * 8)
        when truth cond then set_sprm i d else pure tt)
      else pure tt

-- `GPRM_mode[reg] |= 1` and `GPRM_mode[reg] &= ~ 0x01`, on eight bits.
unfoldable pub set_mode : ℕ → ℕ → M (Unit {0})
set_mode reg counter = do
  r ← get_registers
  mode ← element (get_elem? r.gprm_mode reg)
  let mode' = if truth counter then bit_or mode 1 else bit_and mode 0xfe
  put_registers (record r { gprm_mode = set r.gprm_mode reg mode' })

-- The `switch` of `eval_system_set`.
unfoldable pub set_system : ℕ → M (Unit {0})
set_system cond = do
  kind ← vm_getbits 59 4
  when kind == 1
      then (do set_stream cond 1; set_stream cond 2; set_stream cond 3)
      else when kind == 2
      then (do
        imm ← vm_getbits 60 1
        time ← eval_reg_or_data imm 47
        pgc ← vm_getbits 23 8
        when truth cond then (do set_sprm 9 time; set_sprm 10 pgc) else pure tt)
      else when kind == 3
      then (do
        imm ← vm_getbits 60 1
        d ← eval_reg_or_data imm 47
        reg ← vm_getbits 19 4
        counter ← vm_getbits 23 1
        set_mode reg counter
        when truth cond then set_gprm reg d else pure tt)
      else when kind == 6
      then (do
        imm ← vm_getbits 60 1
        d ← eval_reg_or_data imm 31
        when truth cond then set_sprm 8 d else pure tt)
      else pure tt

unfoldable pub eval_system_set : ℕ → M ℕ
eval_system_set cond = do
  set_system cond
  link ← vm_getbits 51 4
  when truth link then eval_link_instruction cond else pure 0

-- `tmp = a * b; if(tmp > shortmax) tmp = shortmax; (uint16_t)tmp` with a 32-bit `tmp`: a product
-- from 2 ^ 31 on is a negative `int`, which the test lets through to the cast.
unfoldable pub product : ℕ → ℕ → ℕ
product a b =
    let tmp = a * b % 2 ^ 32 in
    if ltb tmp (2 ^ 31) then (if ltb 0xffff tmp then 0xffff else tmp) else u16 tmp

unfoldable pub eval_set_op : ℕ → ℕ → ℕ → ℕ → M (Unit {0})
eval_set_op op reg reg2 d =
    when op == 1
    then set_gprm reg d
    else when op == 2
    then (do old ← get_gprm reg; set_gprm reg2 old; set_gprm reg d)
    else when op == 3
    then (do old ← get_gprm reg; set_gprm reg (if ltb 0xffff (old + d) then 0xffff else old + d))
    else when op == 4
    then (do old ← get_gprm reg; set_gprm reg (if ltb old d then 0 else old - d))
    else when op == 5
    then (do old ← get_gprm reg; set_gprm reg (product old d))
    else when op == 6
    then (when d != 0 then (do old ← get_gprm reg; set_gprm reg (old / d)) else set_gprm reg 0xffff)
    else when op == 7
    then (when d != 0 then (do old ← get_gprm reg; set_gprm reg (old % d)) else set_gprm reg 0xffff)
    else when op == 8
    then (do r ← rand; set_gprm reg (1 + u16 (scaled_random d r)))
    else when op == 9
    then (do old ← get_gprm reg; set_gprm reg (bit_and old d))
    else when op == 10
    then (do old ← get_gprm reg; set_gprm reg (bit_or old d))
    else when op == 11
    then (do old ← get_gprm reg; set_gprm reg (bit_xor old d))
    else pure tt

unfoldable pub eval_set_version_1 : ℕ → M (Unit {0})
eval_set_version_1 cond = do
  op ← vm_getbits 59 4
  reg ← vm_getbits 35 4
  reg2 ← vm_getbits 19 4
  imm ← vm_getbits 60 1
  d ← eval_reg_or_data imm 31
  when truth cond then eval_set_op (u8 op) (u8 reg) (u8 reg2) d else pure tt

unfoldable pub eval_set_version_2 : ℕ → M (Unit {0})
eval_set_version_2 cond = do
  op ← vm_getbits 59 4
  reg ← vm_getbits 51 4
  reg2 ← vm_getbits 35 4
  imm ← vm_getbits 60 1
  d ← eval_reg_or_data imm 47
  when truth cond then eval_set_op (u8 op) (u8 reg) (u8 reg2) d else pure tt
