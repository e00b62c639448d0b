-- ===== src/Searching/Programs.antt =====
-- The searches of searching.c for a program, a part or a menu.
use libdvdnav.Prelude.{Bool, true, false, if◌then◌else◌, not, ◌&&◌, ℕ, Option, none, some}
use libdvdnav.Prelude.Program.{
  Outcome, value, aborted, fault, unfinished, pure, get, when◌then◌else◌, ◌>>=◌, ◌>>◌,
}
use libdvdnav.Vm.State.{V, Vm, Domain, vts_title}
use libdvdnav.Vm.Start.{vm_new_copy, vm_merge}
use libdvdnav.Vm.Jumps.{
  MenuId, menu_escape, menu_root, vm_jump_prev_pg, vm_jump_top_pg, vm_jump_next_pg,
  vm_get_next_cell, vm_jump_resume, vm_jump_menu,
}
use libdvdnav.Vm.Sets.{same_domain}
use libdvdnav.Player.State.{Dvdnav, P, run_vm, update}
use libdvdnav.Highlight.{hop}
use libdvdnav.Navigation.{is_some, dvdnav_current_title_info, dvdnav_part_play}

-- The player after a jump.
abbrev pub arrived : Dvdnav → Dvdnav
arrived this = record this {
  cur_cell_time = 0;
  position_current = record this.position_current { still = 0 };
  vm = hop this.vm;
}

abbrev pub beside : {A : Type 0} → Dvdnav → Outcome Vm A → Outcome Dvdnav (A × Vm)
beside this (value a copy) = value (a, copy) this
beside this aborted = aborted
beside this fault = fault
beside this unfinished = unfinished

-- A run on a copy of the machine.
unfoldable pub try_on : {A : Type 0} → Vm → V A → P (A × Vm)
try_on copy m this = beside this (m copy)

-- The copy takes the place of the machine.
unfoldable pub accept : Vm → P Bool
unfolding ◌>>=◌ run_vm vm_merge update hop
accept copy = do
  update (λ this. record this { cur_cell_time = 0 })
  run_vm (vm_merge copy)
  update arrived
  pure true

abbrev pub root_for : MenuId → MenuId
root_for menu_escape = menu_root
root_for menu = menu

abbrev pub is_escape : MenuId → Bool
is_escape menu_escape = true
is_escape _ = false

module _ (left rounds : ℕ) where
  unfoldable pub jump_or_fail : V Bool → P Bool
  unfolding ◌>>=◌ run_vm update hop
  jump_or_fail jump = do
    this ← get
    when is_some this.vm.state.pgc
        then (do
          jumped ← run_vm jump
          when jumped then (do update arrived; pure true) else pure false)
        else pure false

  unfoldable pub dvdnav_prev_pg_search : P Bool
  unfolding jump_or_fail
  dvdnav_prev_pg_search = jump_or_fail (vm_jump_prev_pg left rounds)

  unfoldable pub dvdnav_top_pg_search : P Bool
  unfolding jump_or_fail
  dvdnav_top_pg_search = jump_or_fail (vm_jump_top_pg left rounds)

  -- The second try, on a new copy: the next cell.
  unfoldable pub try_cell : Option Vm → P Bool
  unfolding ◌>>=◌ try_on accept
  try_cell none = pure false
  try_cell (some copy) = do
    (played, after) ← try_on copy (vm_get_next_cell left rounds)
    when after.stopped then pure false else accept after

  unfoldable pub try_program : Option Vm → P Bool
  unfolding ◌>>=◌ try_on accept run_vm try_cell
  try_program none = pure false
  try_program (some copy) = do
    (jumped, after) ← try_on copy (vm_jump_next_pg left rounds)
    when jumped && not after.stopped then accept after else (run_vm vm_new_copy >>= try_cell)

  unfoldable pub dvdnav_next_pg_search : P Bool
  unfolding ◌>>=◌ run_vm try_program
  dvdnav_next_pg_search = do
    this ← get
    when is_some this.vm.state.pgc then (run_vm vm_new_copy >>= try_program) else pure false

  unfoldable pub try_menu : MenuId → Vm → P Bool
  unfolding ◌>>=◌ try_on accept
  try_menu menu copy = do
    (jumped, after) ← try_on copy (vm_jump_menu left rounds (root_for menu))
    when jumped && not after.stopped then accept after else pure false

  -- A failed resume leaves its traces on the copy.
  unfoldable pub try_resume : MenuId → Domain → Option Vm → P Bool
  unfolding ◌>>=◌ try_on accept try_menu
  try_resume menu domain none = pure false
  try_resume menu domain (some copy) =
      when is_escape menu && not (same_domain domain vts_title)
      then (do
        (jumped, after) ← try_on copy (vm_jump_resume left rounds)
        when jumped && not after.stopped then accept after else try_menu menu after)
      else try_menu menu copy

  unfoldable pub dvdnav_menu_call : MenuId → P Bool
  unfolding ◌>>=◌ update run_vm try_resume
  dvdnav_menu_call menu = do
    this ← get
    when is_some this.vm.state.pgc
        then (do
          update (λ this. record this { cur_cell_time = 0 })
          copy ← run_vm vm_new_copy
          try_resume menu this.vm.state.domain copy)
        else pure false

  unfoldable pub search_part : (part : ℕ) → Option (ℕ × ℕ) → P Bool
  unfolding dvdnav_part_play
  search_part part none = pure false
  search_part part (some (title, old_part)) = dvdnav_part_play left rounds title part

  unfoldable pub dvdnav_part_search : (part : ℕ) → P Bool
  unfolding ◌>>=◌ dvdnav_current_title_info search_part
  dvdnav_part_search part = dvdnav_current_title_info >>= search_part part
