-- ===== src/Vm/State.antt =====
-- `vm_t` and `dvd_state_t` of vm/vm.h, and the steps that vm/vm.c is written in.
use libdvdnav.Prelude.{Bool, ℕ, zero, suc, Option, none, some, List, length, get_elem?, set, u16}
use libdvdnav.Prelude.Program.{Program, value, aborted, fault, element, get, ◌>>=◌}
use libdvdnav.Decoder.State.{Registers, World, Machine, Link, no_link, Result}
use libdvdnav.Decoder.State as Interpreter
use libdvdnav.Decoder.Eval.{VmCmd, vm_eval_cmd}
use libdvdnav.Vm.Disc.{Ifo, Pgc}

-- `DVDDomain_t`.
pub data Domain : Type 0 where
  first_play vts_title vmgm vts_menu : Domain

-- `dvd_state_t`. `vts_n` and `rsm_vts_n` are the bit patterns of an `int`, which is -1 after a reset.
pub record State : Type 0 where
  pub registers : Registers
  pub domain : Domain
  pub vts_n : ℕ
  pub pgc : Option ℕ
  pub pgc_n : ℕ
  pub pg_n : ℕ
  pub cell_n : ℕ
  pub cell_restart : ℕ
  pub block_n : ℕ
  pub rsm_vts_n : ℕ
  pub rsm_block_n : ℕ
  pub rsm_regs : List ℕ
  pub rsm_pgc_n : ℕ
  pub rsm_cell_n : ℕ

-- `pgcs` is what the pointers to program chains lead to, and `open_vtsi` what the opening of a title
-- set by libdvdread gives: the handle, and whether its tables could be read.
pub record Vm : Type 0 where
  pub vmgi : Option Ifo
  pub vtsi : Option Ifo
  pub state : State
  pub hop_channel : ℕ
  pub stopped : Bool
  pub pgcs : List Pgc
  pub open_vtsi : ℕ → Option Ifo × Bool
  pub world : World

abbrev pub V : Type 0 → Type 0
V A = Program Vm A

unfoldable pub get_state : V State
get_state vm = value vm.state vm

unfoldable pub put_state : State → V (Unit {0})
put_state s vm = value tt (record vm { state = s })

-- The program chain that `state.pgc` points to.
unfoldable pub current_pgc : V Pgc
current_pgc = do vm ← get; p ← element vm.state.pgc; element (get_elem? vm.pgcs p)

unfoldable pub get_vmgi : V Ifo
get_vmgi = do vm ← get; element vm.vmgi

unfoldable pub get_vtsi : V Ifo
get_vtsi = do vm ← get; element vm.vtsi

-- A system register, and a write to one.
unfoldable pub sprm : ℕ → V ℕ
sprm i = do s ← get_state; element (get_elem? s.registers.sprm i)

unfoldable pub put_sprm : ℕ → ℕ → V (Unit {0})
put_sprm i v = do
  s ← get_state
  let r = s.registers
  put_state (record s { registers = record r { sprm = set r.sprm i (u16 v) } })

abbrev pub agl_reg : ℕ
agl_reg = 3

abbrev pub ttn_reg : ℕ
ttn_reg = 4

abbrev pub vts_ttn_reg : ℕ
vts_ttn_reg = 5

abbrev pub tt_pgcn_reg : ℕ
tt_pgcn_reg = 6

abbrev pub pttn_reg : ℕ
pttn_reg = 7

abbrev pub hl_btnn_reg : ℕ
hl_btnn_reg = 8

-- What a run of the interpreter leaves: the link if it returned 1.
unfoldable pub evaluated : Result ℕ → V (Option Link)
evaluated (Interpreter.value zero m) vm =
    let s = vm.state in
    value none (record vm { state = record s { registers = m.registers }; world = m.world })
evaluated (Interpreter.value (suc _) m) vm =
    let s = vm.state in
    value (some m.return_values)
      (record vm { state = record s { registers = m.registers }; world = m.world })
evaluated Interpreter.aborted vm = aborted
evaluated Interpreter.fault vm = fault

-- `vmEval_CMD` on the registers of the state, by the length of the commands.
unfoldable pub run_commands : List VmCmd → V (Option Link)
run_commands commands vm =
    evaluated
      (vm_eval_cmd commands (length commands) (record {
        instruction = 0;
        examined = 0;
        registers = vm.state.registers;
        return_values = no_link;
        world = vm.world;
      }))
      vm
