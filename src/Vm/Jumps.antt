-- ===== src/Vm/Jumps.antt =====
-- The jumps that vm/vm.c offers to the rest of the library. Each has the fuel of the play functions
-- and the rounds of process_command as its first two arguments.
use libdvdnav.Prelude.{
  Bool, true, false, if◌then◌else◌, ◌==◌, ◌!=◌, leb, ℕ, ◌+◌, ◌-◌, Option, none, some, List, [], ◌∷◌,
  length,
}
use libdvdnav.Prelude.Program.{pure, get, when◌then◌else◌, ◌>>=◌, ◌>>◌}
use libdvdnav.Decoder.State.{LinkCmd, link_rsm, play_this}
use libdvdnav.Decoder.Eval.{VmCmd}
use libdvdnav.Vm.Disc.{PgciSrp}
use libdvdnav.Vm.State.{
  V, Vm, State, Domain, vts_title, vts_menu, vmgm, first_play, get_state, put_state, current_pgc,
  run_commands,
}
use libdvdnav.Vm.Lookup.{get_pgcit}
use libdvdnav.Vm.Sets.{set_domain, set_pgcn, set_pg_n, set_ptt, set_prog, set_menu, set_rsm_info}
use libdvdnav.Vm.Play.{
  link_of, set_cell_n, play_pgc, play_pgc_pg, play_pgc_post, play_pg, play_cell, play_cell_post,
}
use libdvdnav.Vm.Links.{has_menus}
use libdvdnav.Vm.Process.{process_command}

-- `DVDMenuID_t`, with the numbers of the entries.
pub data MenuId : Type 0 where
  menu_escape menu_title menu_root menu_subpicture menu_audio menu_angle menu_part : MenuId

abbrev pub menu_number : MenuId → ℕ
menu_number menu_escape = 0
menu_number menu_title = 2
menu_number menu_root = 3
menu_number menu_subpicture = 4
menu_number menu_audio = 5
menu_number menu_angle = 6
menu_number menu_part = 7

abbrev pub is_play_this : LinkCmd → Bool
is_play_this play_this = true
is_play_this _ = false

module _ (left rounds : ℕ) where
  unfoldable pub vm_get_next_cell : V Bool
  vm_get_next_cell = play_cell_post left >>= process_command left rounds

  unfoldable pub vm_jump_pg : ℕ → V Bool
  vm_jump_pg pg = do
    set_pg_n pg
    link ← play_pg left
    jumped ← process_command left rounds link
    pure true

  -- An angle block may lead to another cell, and then the block is not set.
  unfoldable pub vm_jump_cell_block : (cell block : ℕ) → V Bool
  vm_jump_cell_block cell block = do
    set_cell_n cell
    link ← play_cell left
    jumped ← process_command left rounds link
    s ← get_state
    when s.cell_n == cell
        then (do put_state (record s { block_n = block }); pure true)
        else pure true

  -- A pre-command that would jump away is ignored.
  unfoldable pub play_title : V Bool
  play_title = do
    s ← get_state
    link ← play_pgc_pg left s.pg_n
    next ← (when is_play_this link.command then pure link else play_pg left)
    jumped ← process_command left rounds next
    pure true

  unfoldable pub vm_jump_title_program : (title pgcn pgn : ℕ) → V Bool
  vm_jump_title_program title pgcn pgn = do
    possible ← set_prog title pgcn pgn
    when possible then play_title else pure false

  unfoldable pub vm_jump_title_part : (title part : ℕ) → V Bool
  vm_jump_title_part title part = do
    possible ← set_ptt title part
    when possible then play_title else pure false

  unfoldable pub vm_jump_top_pg : V Bool
  vm_jump_top_pg = do link ← play_pg left; jumped ← process_command left rounds link; pure true

  unfoldable pub vm_jump_next_pg : V Bool
  vm_jump_next_pg = do
    pgc ← current_pgc
    s ← get_state
    when leb (length pgc.program_map) s.pg_n
        then (do link ← play_pgc_post left; jumped ← process_command left rounds link; pure true)
        else vm_jump_pg (s.pg_n + 1)

  -- `number && set_PGCN(vm, number)`, then the whole program chain.
  unfoldable pub enter_neighbour : ℕ → V Bool
  enter_neighbour n = do
    possible ← (when n != 0 then set_pgcn n else pure false)
    when possible
        then (do link ← play_pgc left; jumped ← process_command left rounds link; pure true)
        else pure false

  unfoldable pub vm_jump_prev_pg : V Bool
  vm_jump_prev_pg = do
    pgc ← current_pgc
    s ← get_state
    when leb s.pg_n 1
        then (do
          entered ← enter_neighbour pgc.prev_pgc_nr
          when entered
              then (do before ← current_pgc; vm_jump_pg (length before.program_map))
              else pure false)
        else vm_jump_pg (s.pg_n - 1)

  unfoldable pub vm_jump_up : V Bool
  vm_jump_up = do pgc ← current_pgc; enter_neighbour pgc.goup_pgc_nr

  -- The domain of a menu, if the disc has menus there.
  unfoldable pub menu_domain : MenuId → Vm → Option Domain
  menu_domain menu_escape vm = if has_menus vm.vmgi then some vmgm else none
  menu_domain menu_title vm = if has_menus vm.vmgi then some vmgm else none
  menu_domain _ vm = if has_menus vm.vtsi then some vts_menu else none

  unfoldable pub menu_entered : Option (List PgciSrp) → MenuId → V Bool
  menu_entered none id = pure false
  menu_entered (some pgcit) id = set_menu (menu_number id)

  unfoldable pub enter_menu : MenuId → Domain → V Bool
  enter_menu id old_domain = do
    vm ← get
    elim (menu_domain id vm) [
      | none ↦ pure false
      | some domain ↦ do
        set_domain domain
        pgcit ← get_pgcit
        found ← menu_entered pgcit id
        when found
            then (do link ← play_pgc left; jumped ← process_command left rounds link; pure true)
            else (do set_domain old_domain; pure false)
    ]

  unfoldable pub jump_menu_from : Domain → State → MenuId → V Bool
  jump_menu_from vts_title s id = do set_rsm_info 0 s.block_n; enter_menu id vts_title
  jump_menu_from vts_menu s id = enter_menu id vts_menu
  jump_menu_from vmgm s id = enter_menu id vmgm
  jump_menu_from first_play s id = pure false

  unfoldable pub vm_jump_menu : MenuId → V Bool
  vm_jump_menu id = do s ← get_state; jump_menu_from s.domain s id

  unfoldable pub vm_jump_resume : V Bool
  vm_jump_resume = do
    s ← get_state
    when s.rsm_vts_n == 0 then pure false else process_command left rounds (link_of link_rsm)

  unfoldable pub vm_exec_cmd : VmCmd → V Bool
  vm_exec_cmd cmd = do
    jump ← run_commands (cmd ∷ [])
    elim jump [ none ↦ pure false | some link ↦ process_command left rounds link ]
