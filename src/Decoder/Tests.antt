-- ===== src/Decoder/Tests.antt =====
-- Commands run on concrete inputs.
use libdvdnav.Prelude.{
  ℕ, ◌+◌, ◌/◌, ◌%◌, ◌^◌, ◌≤◌, ◌<◌, ◌≡◌, ◌≢◌, ◌↔◌, refl, min, Option, none, some, [], ◌∷◌, replicate,
  get_elem?, arith,
}
use libdvdnav.Prelude.Int.{ℤ, negsuc}
use libdvdnav.Decoder.State.{
  Result, value, aborted, fault, Link, Machine, Registers, World, no_link, jump_tt, ◌>>=◌,
}
use libdvdnav.Decoder.Getbits.{vm_getbits}
use libdvdnav.Decoder.Getbits.Field.{vm_getbits_lem}
use libdvdnav.Decoder.Registers.{get_gprm, set_gprm}
use libdvdnav.Decoder.Registers.Counter.{counter_elapsed}
use libdvdnav.Decoder.Compare.{eval_compare}
use libdvdnav.Decoder.Compare.Meaning.{eval_compare_iff}
use libdvdnav.Decoder.Sets.{eval_set_op}
use libdvdnav.Decoder.Sets.Arithmetic.{add, Holds, written, eval_set_op_lem}
use libdvdnav.Decoder.Links.Encoding.{
  vts_part, link_sub, jump_word, jump_link, transfer_word, transfer_link,
}
use libdvdnav.Decoder.Eval.{VmCmd, assemble, eval_command, eval_opened, vm_eval_cmd}
use libdvdnav.Decoder.Eval.Bytes.{bytes_of}
use libdvdnav.Decoder.Eval.Decode.Whole.{Linked, decode_jump, decode_transfer}
use libdvdnav.Decoder.Eval.Rows.{Links, vm_eval_cmd_iff}
use libdvdnav.Decoder.Safety.{IsSound, Returns}
use libdvdnav.Decoder.Safety.Program.{
  IsCommand, Leaves, Evaluated, eval_command_total, vm_eval_cmd_total,
}

abbrev world : World
world = record {
  clock = λ n. record { tv_sec = 1000 + n; tv_usec = 0 };
  random = λ n. 2147483647;
  clock_reads = 0;
  random_reads = 0;
}

abbrev registers : Registers
registers = record {
  sprm = replicate 24 0;
  gprm = replicate 16 0;
  gprm_mode = replicate 16 0;
  gprm_time = replicate 16 (record { tv_sec = 0; tv_usec = 0 });
}

abbrev machine : Machine
machine = record {
  instruction = 0;
  examined = 0;
  registers = registers;
  return_values = no_link;
  world = world;
}

-- JumpTT 5.
abbrev jump_tt_5 : VmCmd
jump_tt_5 = record { b0 = 0x30; b1 = 0x02; b2 = 0; b3 = 0; b4 = 0; b5 = 0x05; b6 = 0; b7 = 0 }

-- A random number up to 10 into register 0.
abbrev random_10 : VmCmd
random_10 = record { b0 = 0x78; b1 = 0; b2 = 0; b3 = 0; b4 = 0; b5 = 10; b6 = 0; b7 = 0 }

-- What a run leaves, in short.
decode : VmCmd → Option (ℤ × Link)
decode c = elim (eval_command c machine) [
  | value r s ↦ some (r, s.return_values)
  | aborted ↦ none
  | fault ↦ none
]

first_register : Result ℕ → Option ℕ
first_register (value r s) = get_elem? s.registers.gprm 0
first_register aborted = none
first_register fault = none

jump_decodes : decode jump_tt_5 ≡ some (negsuc 0, record no_link { command = jump_tt; data1 = 5 })
unfolding eval_opened decode
jump_decodes = refl

-- `rand` at RAND_MAX gives 11 for a random number from 1 to 10.
random_too_large : first_register (vm_eval_cmd (random_10 ∷ []) 1 machine) ≡ some 11
unfolding eval_opened first_register
random_too_large = refl

machine-IsSound : IsSound machine.registers
machine-IsSound = omega arith

vm_getbits_lem_example :
    vm_getbits 7 4 (record machine { instruction = 0xab })
    ≡ value 0xa (record machine { instruction = 0xab; examined = 0xf0 })
vm_getbits_lem_example =
    vm_getbits_lem 7 4 (record machine { instruction = 0xab }) (omega arith) (omega arith)
      (omega arith) (omega arith)

jump_tt_5-IsCommand : IsCommand jump_tt_5
unfolding assemble
jump_tt_5-IsCommand = omega arith

random_10-IsCommand : IsCommand random_10
unfolding assemble
random_10-IsCommand = omega arith

eval_command_total_example : Returns (λ _ s. Leaves s) (eval_command random_10 machine)
eval_command_total_example =
    eval_command_total random_10 machine machine-IsSound random_10-IsCommand

vm_eval_cmd_total_example : Returns Evaluated (vm_eval_cmd (random_10 ∷ jump_tt_5 ∷ []) 2 machine)
vm_eval_cmd_total_example =
    vm_eval_cmd_total (random_10 ∷ jump_tt_5 ∷ []) 2
      (random_10-IsCommand, (jump_tt_5-IsCommand, tt)) (omega arith) machine machine-IsSound

-- What JumpTT 5 leaves.
abbrev jumped : Machine
jumped = record machine {
  instruction = 0x3002000000050000;
  examined = 0xf07f0000007f0000;
  return_values = record no_link { command = jump_tt; data1 = 5 };
}

jump_tt_5_runs : vm_eval_cmd (jump_tt_5 ∷ []) 1 machine ≡ value 1 jumped
unfolding eval_opened
jump_tt_5_runs = refl

vm_eval_cmd_iff_example :
    (vm_eval_cmd (jump_tt_5 ∷ []) 1 machine ≡ value 1 jumped)
    ↔ ((k : ℕ) × (k < 100000) × Links (jump_tt_5 ∷ []) 1 k 0 machine jumped)
vm_eval_cmd_iff_example = vm_eval_cmd_iff (jump_tt_5 ∷ []) 1 machine jumped

decode_jump_example :
    Returns
      (Linked machine (jump_link (vts_part 3 12)))
      (eval_command (bytes_of (jump_word (vts_part 3 12))) machine)
decode_jump_example = decode_jump (vts_part 3 12) machine (omega arith)

decode_transfer_example :
    Returns
      (Linked machine (transfer_link (link_sub 16 2)))
      (eval_command (bytes_of (transfer_word (link_sub 16 2))) machine)
decode_transfer_example = decode_transfer (link_sub 16 2) machine (omega arith)

eval_compare_iff_example : (eval_compare 4 7 5 ≢ 0) ↔ (5 ≤ 7)
eval_compare_iff_example = eval_compare_iff 4 7 5

-- A machine that holds 50000 in register 0 and 7 in register 1.
abbrev loaded : Machine
loaded = record machine { registers = record registers { gprm = 50000 ∷ 7 ∷ replicate 14 0 } }

loaded-Holds : Holds loaded 0 50000
loaded-Holds = record { plain = (0, refl, refl); content = refl }

eval_set_op_lem_example :
    eval_set_op 3 0 0 40000 loaded ≡ value tt (written loaded 0 (min (50000 + 40000) 0xffff))
eval_set_op_lem_example =
    eval_set_op_lem add loaded 0 0 50000 40000 loaded-Holds (omega arith) (omega arith)

-- A machine whose register 2 counts.
abbrev counting : Machine
counting = record machine {
  registers = record registers { gprm_mode = 0 ∷ 0 ∷ 1 ∷ replicate 13 0 };
}

counter_elapsed_example :
    Returns
      (λ x _. x ≡ (65535 + 1000000 / 1000000) % 2 ^ 16)
      ((set_gprm 2 65535 >>= λ _. get_gprm 2) counting)
counter_elapsed_example =
    counter_elapsed 2 65535 counting 1 (omega arith) (omega arith) refl refl (omega arith)
      (omega arith) (omega arith)
