-- ===== src/Decoder/Eval.antt =====
-- vm/decoder.c: one command, and the loop over a list of commands.
pub mod Bytes
pub mod Decode
pub mod Rows
use libdvdnav.Prelude.{
  ℕ, zero, suc, ◌+◌, ◌-◌, bit_or, ltb, ◌==◌, truth, if◌then◌else◌, List, get_elem?, shl,
}
use libdvdnav.Prelude.Int.{ℤ, pos, negsuc}
use libdvdnav.Decoder.State.{
  Machine, M, value, ◌>>=◌, when◌then◌else◌, ◌>>◌, pure, abort, element, no_link, put_return_values,
  set_sprm,
}
use libdvdnav.Decoder.Getbits.{vm_getbits}
use libdvdnav.Decoder.Registers.{
  elapsed, get_gprm, set_gprm, eval_reg, eval_reg_or_data, eval_reg_or_data_2,
}
use libdvdnav.Decoder.Sets.Floats.{scaled_random}
use libdvdnav.Decoder.Compare.{
  eval_compare, eval_if_version_1, eval_if_version_2, eval_if_version_3, eval_if_version_4,
}
use libdvdnav.Decoder.Links.{
  eval_special_instruction, eval_link_subins, eval_link_instruction, eval_jump_instruction,
  sub_link, return_command, return_data1, return_data2, return_data3, eval_jump_ss, eval_call_ss,
}
use libdvdnav.Decoder.Sets.{
  set_stream, set_mode, set_system, product, eval_set_op, eval_system_set, eval_set_version_1,
  eval_set_version_2,
}

-- `vm_cmd_t` of the DVD reading library: eight bytes.
pub record VmCmd : Type 0 where
  pub b0 : ℕ
  pub b1 : ℕ
  pub b2 : ℕ
  pub b3 : ℕ
  pub b4 : ℕ
  pub b5 : ℕ
  pub b6 : ℕ
  pub b7 : ℕ

-- The big-endian word that the eight bytes make.
unfoldable pub assemble : VmCmd → ℕ
assemble c =
    bit_or
      (bit_or
        (bit_or
          (bit_or (bit_or (bit_or (bit_or (shl c.b0 56) (shl c.b1 48)) (shl c.b2 40)) (shl c.b3 32))
            (shl c.b4 24))
          (shl c.b5 16))
        (shl c.b6 8))
      c.b7

-- The local `command_t` of `eval_command`, and the `memset` of `*return_values`.
unfoldable pub load : VmCmd → M (Unit {0})
load c s = value tt (record s { instruction = assemble c; examined = 0; return_values = no_link })

-- `if(res) res = -1`.
unfoldable pub link_result : ℕ → ℤ
link_result res = if truth res then negsuc 0 else pos 0

-- The link of a set instruction (case 3), if it has one.
unfoldable pub eval_set_link : ℕ → M ℕ
eval_set_link cond = do
  link ← vm_getbits 51 4
  when truth link then eval_link_instruction cond else pure 0

-- The `switch` of `eval_command`. A special instruction never returns -1, so that test of the code
-- is left out; the warning about bits that were not examined only prints.
unfoldable pub dispatch : ℕ → M ℤ
dispatch kind =
    when kind == 0
    then (do cond ← eval_if_version_1; line ← eval_special_instruction cond; pure (pos line))
    else when kind == 1
    then (do
      jump ← vm_getbits 60 1
      when truth jump
          then (do
            cond ← eval_if_version_2
            res ← eval_jump_instruction cond
            pure (link_result res))
          else (do
            cond ← eval_if_version_1
            res ← eval_link_instruction cond
            pure (link_result res)))
    else when kind == 2
    then (do cond ← eval_if_version_2; res ← eval_system_set cond; pure (link_result res))
    else when kind == 3
    then (do
      cond ← eval_if_version_3
      eval_set_version_1 cond
      res ← eval_set_link cond
      pure (link_result res))
    else when kind == 4
    then (do
      eval_set_version_2 1
      cond ← eval_if_version_4
      res ← eval_link_subins cond
      pure (link_result res))
    else when kind == 5
    then (do
      cond ← eval_if_version_4
      eval_set_version_2 cond
      res ← eval_link_subins cond
      pure (link_result res))
    else when kind == 6
    then (do
      cond ← eval_if_version_4
      eval_set_version_2 cond
      res ← eval_link_subins 1
      pure (link_result res))
    else abort

unfoldable pub eval_command : VmCmd → M ℤ
eval_command c = do load c; kind ← vm_getbits 63 3; dispatch kind

-- The row after row `i`, for a result that is no link.
unfoldable pub next_row : ℕ → ℕ → ℕ
next_row i line = if ltb 0 line then line - 1 else i + 1

abbrev pub max_rounds : ℕ
max_rounds = 100000

-- A link command ends the loop; otherwise it goes on.
unfoldable pub after_row : ℤ → (ℕ → M ℕ) → M ℕ
after_row (negsuc _) continue = pure 1
after_row (pos line) continue = continue line

module _ (commands : List VmCmd) (num_commands : ℕ) where
  -- The loop of `vmEval_CMD` at row `i`, with `left` rounds up to the limit.
  unfoldable pub eval_rows : ℕ → ℕ → M ℕ
  eval_rows zero i = put_return_values no_link >> pure 0
  eval_rows (suc left) i =
      when ltb i num_commands
      then (do
        c ← element (get_elem? commands i)
        line ← eval_command c
        after_row line (λ n. eval_rows left (next_row i n)))
      else put_return_values no_link >> pure 0

unfoldable pub vm_eval_cmd : List VmCmd → ℕ → M ℕ
vm_eval_cmd commands num_commands = eval_rows commands num_commands max_rounds 0

-- Evaluates a command in a test: its line opens all of vm/decoder.c.
unfoldable pub eval_opened : VmCmd → M ℤ
unfolding eval_command dispatch load assemble link_result eval_set_link ◌>>=◌ vm_getbits set_sprm
    elapsed get_gprm set_gprm eval_reg eval_reg_or_data eval_reg_or_data_2 eval_compare
    eval_if_version_1 eval_if_version_2 eval_if_version_3 eval_if_version_4 eval_special_instruction
    sub_link return_command return_data1 return_data2 return_data3 eval_link_subins
    eval_link_instruction eval_jump_ss eval_call_ss eval_jump_instruction set_stream set_mode
    set_system eval_system_set product eval_set_op scaled_random eval_set_version_1
    eval_set_version_2 eval_rows next_row after_row vm_eval_cmd
eval_opened = eval_command
