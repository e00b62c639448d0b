-- ===== src/Decoder/Links.antt =====
-- vm/decoder.c: the special, link and jump instructions. What an instruction links to is left in
-- `return_values`; the result is the condition, so it is not 0 exactly if the link is to be taken.
pub mod Encoding
use libdvdnav.Prelude.{ℕ, bit_and, ltb, ◌==◌, truth, if◌then◌else◌, u8, u16}
use libdvdnav.Decoder.State.{
  LinkCmd, link_no_link, link_top_c, link_next_c, link_prev_c, link_top_pg, link_next_pg,
  link_prev_pg, link_top_pgc, link_next_pgc, link_prev_pgc, link_go_up_pgc, link_tail_pgc, link_rsm,
  link_pgcn, link_pttn, link_pgn, link_cn, exit, jump_tt, jump_vts_tt, jump_vts_ptt, jump_ss_fp,
  jump_ss_vmgm_menu, jump_ss_vtsm, jump_ss_vmgm_pgc, call_ss_fp, call_ss_vmgm_menu, call_ss_vtsm,
  call_ss_vmgm_pgc, unnamed, Link, Machine, M, value, ◌>>=◌, when◌then◌else◌, ◌>>◌, pure, set_sprm,
}
use libdvdnav.Decoder.Getbits.{vm_getbits}

-- The row to go on at: 0 for the next one, 256 to break off.
unfoldable pub eval_special_instruction : ℕ → M ℕ
eval_special_instruction cond = do
  kind ← vm_getbits 51 4
  when kind == 0
      then pure 0
      else when kind == 1
      then (do line ← vm_getbits 7 8; pure (if truth cond then line else 0))
      else when kind == 2
      then pure (if truth cond then 256 else 0)
      else when kind == 3
      then (do
        line ← vm_getbits 7 8
        level ← vm_getbits 11 4
        when truth cond then (do set_sprm 13 level; pure line) else pure 0)
      else pure 0

-- The cast of a number to `link_cmd_t`, for the numbers that `eval_link_subins` casts.
unfoldable pub sub_link : ℕ → LinkCmd
sub_link linkop =
    if linkop == 0
    then link_no_link
    else if linkop == 1
    then link_top_c
    else if linkop == 2
    then link_next_c
    else if linkop == 3
    then link_prev_c
    else if linkop == 5
    then link_top_pg
    else if linkop == 6
    then link_next_pg
    else if linkop == 7
    then link_prev_pg
    else if linkop == 9
    then link_top_pgc
    else if linkop == 10
    then link_next_pgc
    else if linkop == 11
    then link_prev_pgc
    else if linkop == 12
    then link_go_up_pgc
    else if linkop == 13
    then link_tail_pgc
    else if linkop == 16
    then link_rsm
    else unnamed linkop

-- `return_values->command = c`, and likewise with one to three operands. A field that an
-- instruction does not set keeps its value.
unfoldable pub return_command : LinkCmd → M (Unit {0})
return_command c s =
    value tt (record s { return_values = record (s.return_values) { command = c } })

unfoldable pub return_data1 : ℕ → M (Unit {0})
return_data1 d s =
    value tt (record s { return_values = record (s.return_values) { data1 = u16 d } })

unfoldable pub return_data2 : ℕ → M (Unit {0})
return_data2 d s =
    value tt (record s { return_values = record (s.return_values) { data2 = u16 d } })

unfoldable pub return_data3 : ℕ → M (Unit {0})
return_data3 d s =
    value tt (record s { return_values = record (s.return_values) { data3 = u16 d } })

unfoldable pub eval_link_subins : ℕ → M ℕ
eval_link_subins cond = do
  button ← vm_getbits 15 6
  linkop ← vm_getbits 4 5
  when ltb 0x10 (u8 linkop)
      then pure 0
      else (do return_command (sub_link (u8 linkop)); return_data1 (u16 button); pure cond)

unfoldable pub eval_link_instruction : ℕ → M ℕ
eval_link_instruction cond = do
  op ← vm_getbits 51 4
  when u8 op == 1
      then eval_link_subins cond
      else when u8 op == 4
      then (do return_command link_pgcn; d ← vm_getbits 14 15; return_data1 d; pure cond)
      else when u8 op == 5
      then (do
        return_command link_pttn
        d ← vm_getbits 9 10
        return_data1 d
        b ← vm_getbits 15 6
        return_data2 b
        pure cond)
      else when u8 op == 6
      then (do
        return_command link_pgn
        d ← vm_getbits 6 7
        return_data1 d
        b ← vm_getbits 15 6
        return_data2 b
        pure cond)
      else when u8 op == 7
      then (do
        return_command link_cn
        d ← vm_getbits 7 8
        return_data1 d
        b ← vm_getbits 15 6
        return_data2 b
        pure cond)
      else pure 0

-- The inner `switch` of `eval_jump_instruction` for JumpSS, on two bits.
unfoldable pub eval_jump_ss : ℕ → M ℕ
eval_jump_ss cond = do
  kind ← vm_getbits 23 2
  when kind == 0
      then (do return_command jump_ss_fp; pure cond)
      else when kind == 1
      then (do return_command jump_ss_vmgm_menu; d ← vm_getbits 19 4; return_data1 d; pure cond)
      else when kind == 2
      then (do
        return_command jump_ss_vtsm
        d ← vm_getbits 31 8
        return_data1 d
        e ← vm_getbits 39 8
        return_data2 e
        f ← vm_getbits 19 4
        return_data3 f
        pure cond)
      else when kind == 3
      then (do return_command jump_ss_vmgm_pgc; d ← vm_getbits 46 15; return_data1 d; pure cond)
      else pure 0

-- The inner `switch` for CallSS.
unfoldable pub eval_call_ss : ℕ → M ℕ
eval_call_ss cond = do
  kind ← vm_getbits 23 2
  when kind == 0
      then (do return_command call_ss_fp; d ← vm_getbits 31 8; return_data1 d; pure cond)
      else when kind == 1
      then (do
        return_command call_ss_vmgm_menu
        d ← vm_getbits 19 4
        return_data1 d
        e ← vm_getbits 31 8
        return_data2 e
        pure cond)
      else when kind == 2
      then (do
        return_command call_ss_vtsm
        d ← vm_getbits 19 4
        return_data1 d
        e ← vm_getbits 31 8
        return_data2 e
        pure cond)
      else when kind == 3
      then (do
        return_command call_ss_vmgm_pgc
        d ← vm_getbits 46 15
        return_data1 d
        e ← vm_getbits 31 8
        return_data2 e
        pure cond)
      else pure 0

unfoldable pub eval_jump_instruction : ℕ → M ℕ
eval_jump_instruction cond = do
  op ← vm_getbits 51 4
  when op == 1
      then (do return_command exit; pure cond)
      else when op == 2
      then (do return_command jump_tt; d ← vm_getbits 22 7; return_data1 d; pure cond)
      else when op == 3
      then (do return_command jump_vts_tt; d ← vm_getbits 22 7; return_data1 d; pure cond)
      else when op == 5
      then (do
        return_command jump_vts_ptt
        d ← vm_getbits 22 7
        return_data1 d
        e ← vm_getbits 41 10
        return_data2 e
        pure cond)
      else when op == 6
      then eval_jump_ss cond
      else when op == 8
      then eval_call_ss cond
      else pure 0
