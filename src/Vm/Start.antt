-- ===== src/Vm/Start.antt =====
-- Starting and stopping the machine of vm/vm.c, and copies of it. The disc is open: vm_reset is the
-- one of a call without a new disc.
use libdvdnav.Prelude.{
  Bool, true, false, not, ◌&&◌, ◌==◌, ltb, ℕ, ◌-◌, ◌^◌, Option, none, some, List, [], ◌∷◌,
  replicate,
}
use libdvdnav.Prelude.Program.{
  Outcome, value, aborted, fault, unfinished, pure, get, put, when◌then◌else◌, ◌>>=◌, ◌>>◌,
}
use libdvdnav.Decoder.State.{Registers}
use libdvdnav.Vm.State.{V, Vm, first_play}
use libdvdnav.Vm.Lookup.{get_pgcn}
use libdvdnav.Vm.Sets.{ifo_open_new_vtsi, set_pgcn, set_pg_n, set_fp_pgc}
use libdvdnav.Vm.Play.{play_pgc}
use libdvdnav.Vm.Process.{process_command}

-- "en", twice in the registers of the languages, and "US".
abbrev pub initial_sprm : List ℕ
initial_sprm =
    0x656e ∷ 15 ∷ 62 ∷ 1 ∷ 1 ∷ 1 ∷ 0 ∷ 1 ∷ 0x400 ∷ 0 ∷ 0 ∷ 0 ∷ 0x5553 ∷ 15 ∷ 0x100 ∷ 0 ∷ 0x656e ∷ 0
    ∷ 0x656e ∷ 0 ∷ 1 ∷ 0 ∷ 0 ∷ 0 ∷ []

unfoldable pub initial_registers : Registers
initial_registers = record {
  sprm = initial_sprm;
  gprm = replicate 16 0;
  gprm_mode = replicate 16 0;
  gprm_time = replicate 16 (record { tv_sec = 0; tv_usec = 0 });
}

unfoldable pub vm_reset : V (Unit {0})
vm_reset = do
  vm ← get
  let s = vm.state
  put (record vm {
    state = record s {
      registers = initial_registers;
      pg_n = 0;
      cell_n = 0;
      cell_restart = 0;
      domain = first_play;
      rsm_vts_n = 0;
      rsm_cell_n = 0;
      rsm_block_n = 0;
      vts_n = 2 ^ 32 - 1;
    };
    hop_channel = 0;
  })

unfoldable pub vm_start : (left rounds : ℕ) → V Bool
vm_start left rounds = do
  vm ← get
  (when vm.stopped
      then (do vm_reset; again ← get; put (record again { stopped = false }))
      else pure tt)
  possible ← set_fp_pgc
  link ← play_pgc left
  jumped ← process_command left rounds link
  after ← get
  pure (not after.stopped)

unfoldable pub vm_stop : V (Unit {0})
vm_stop = do vm ← get; put (record vm { stopped = true })

-- The copy opens its title set anew and finds its program chain in it.
unfoldable pub reopen : (pgc_n pg_n : ℕ) → V Bool
reopen pgc_n pg_n = do
  vm ← get
  let s = vm.state
  when ltb 0 s.vts_n && ltb s.vts_n (2 ^ 31)
      then (do
        put (record vm { vtsi = none; state = record s { vts_n = 0 } })
        opened ← ifo_open_new_vtsi s.vts_n
        found ← (when opened then set_pgcn pgc_n else pure false)
        when found then (do set_pg_n pg_n; pure true) else pure false)
      else (do put (record vm { vtsi = none }); pure true)

-- The machine after vm_free_vm on a copy of it has closed the handles of the disc that both have:
-- there is no VMGI to read and nothing to open any more. The pointers of the code stay, and what is
-- read through them is undefined.
abbrev pub disconnected : Vm → Vm
disconnected vm = record vm { vmgi = none; open_vtsi = λ _. (none, false) }

-- What a run on the copy gives to the original: it does not change, unless the run fails and the copy
-- is freed.
unfoldable pub copied : Outcome Vm Bool → V (Option Vm)
copied (value true copy) vm = value (some copy) vm
copied (value false copy) vm = value none (disconnected vm)
copied aborted vm = aborted
copied fault vm = fault
copied unfinished vm = unfinished

unfoldable pub vm_new_copy : V (Option Vm)
vm_new_copy = do
  pgc_n ← get_pgcn
  source ← get
  when pgc_n == 0 then pure none else copied (reopen pgc_n source.state.pg_n source)

unfoldable pub vm_merge : Vm → V (Unit {0})
vm_merge source = put source
