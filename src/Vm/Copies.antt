-- ===== src/Vm/Copies.antt =====
-- vm_new_copy of vm/vm.c in a title: the copy plays the same place.
use libdvdnav.Prelude.{
  true, false, ltb, ◌&&◌, ◌||◌, ◌==◌, ℕ, suc, ◌^◌, ◌<◌, ◌≡◌, refl, arith, some, none, List,
  get_elem?, length, get_elem?_of_lt,
}
use libdvdnav.Prelude.Program.{value, ◌>>=◌}
use libdvdnav.Vm.Disc.{Ifo, PgciSrp}
use libdvdnav.Vm.State.{Vm, vts_title, get_state, put_state}
use libdvdnav.Vm.Lookup.{get_pgcn}
use libdvdnav.Vm.Sets.{load_vtsi, ifo_open_new_vtsi, set_pgcn, set_pg_n}
use libdvdnav.Vm.Chains.{entered, set_pgcn-entered}
use libdvdnav.Vm.Start.{reopen, copied, vm_new_copy}

abbrev closed : Vm → Vm
closed vm = record vm { vtsi = none; state = record (vm.state) { vts_n = 0 } }

abbrev opened : Vm → Ifo → Vm
opened vm h = record vm { vtsi = some h }

-- The copy at its program chain and program.
abbrev copy_at : Vm → Ifo → (pgc_n pgc : ℕ) → Vm
copy_at vm h n p =
    let e = entered (opened vm h) n p in
    record e { state = record (e.state) { pg_n = vm.state.pg_n } }

open_copy :
    (vm : Vm) (h : Ifo)
    → 0 < vm.state.vts_n
    → vm.open_vtsi vm.state.vts_n ≡ (some h, true)
    → ifo_open_new_vtsi vm.state.vts_n (closed vm) ≡ value true (opened vm h)
unfolding ifo_open_new_vtsi load_vtsi ◌>>=◌
open_copy vm h some_vts e =
    let differs : (0 == vm.state.vts_n) ≡ false = ground arith in rw (differs, e) refl

reopen_lem :
    (vm copy : Vm) (h : Ifo) (n pg : ℕ)
    → (ltb 0 vm.state.vts_n && ltb vm.state.vts_n (2 ^ 31)) ≡ true
    → ifo_open_new_vtsi vm.state.vts_n (closed vm) ≡ value true (opened vm h)
    → set_pgcn n (opened vm h) ≡ value true copy
    → reopen n pg vm ≡ value true (record copy { state = record (copy.state) { pg_n = pg } })
unfolding reopen set_pg_n get_state put_state ◌>>=◌
reopen_lem vm copy h n pg valid open_it found = rw (valid, open_it, found) refl

-- In a title, a copy of the machine opens the title set anew and then stands where the machine stands:
-- the same title set, program chain number, program, cell and block, with the program chain of the new
-- handle. The machine itself does not change.
pub vm_new_copy_lem :
    (vm : Vm) (h : Ifo) (pgcit : List PgciSrp) (n lang : ℕ)
    → vm.state.domain ≡ vts_title
    → get_pgcn vm ≡ value (suc n) vm
    → 0 < vm.state.vts_n
    → vm.state.vts_n < 2 ^ 31
    → vm.open_vtsi vm.state.vts_n ≡ (some h, true)
    → h.vts_pgcit ≡ some pgcit
    → n < length pgcit
    → get_elem? vm.state.registers.sprm 0 ≡ some lang
    → (copy : Vm) × (srp : PgciSrp) × (vm_new_copy vm ≡ value (some copy) vm)
      × (get_elem? pgcit n ≡ some srp)
      × (copy.vtsi ≡ some h)
      × (copy.state.pgc ≡ some srp.pgc)
      × (copy.state.pgc_n ≡ suc n)
      × (copy.state.pg_n ≡ vm.state.pg_n)
      × (copy.state.cell_n ≡ vm.state.cell_n)
      × (copy.state.block_n ≡ vm.state.block_n)
      × (copy.state.vts_n ≡ vm.state.vts_n)
unfolding vm_new_copy copied ◌>>=◌
vm_new_copy_lem vm h pgcit n lang title number low high loads table valid first =
    let (srp, here) = get_elem?_of_lt pgcit n valid in
    let valid_vts : (ltb 0 vm.state.vts_n && ltb vm.state.vts_n (2 ^ 31)) ≡ true = ground arith in
    let valid_number : (ltb (suc n) 1 || ltb (length pgcit) (suc n)) ≡ false = ground arith in
    let found =
      set_pgcn-entered (opened vm h) h pgcit n lang srp title refl table first here valid_number in
    let run = reopen_lem vm _ h (suc n) vm.state.pg_n valid_vts (open_copy vm h low loads) found in
    let named : (suc n == 0) ≡ false = ground arith in
    (
      copy_at vm h (suc n) srp.pgc,
      srp,
      rw (number, named, run) refl,
      here,
      refl,
      refl,
      refl,
      refl,
      refl,
      refl,
      refl,
    )
