-- ===== src/Vm/Links.antt =====
-- What process_command of vm/vm.c does for one link: resuming, and the jumps and calls to menus.
use libdvdnav.Prelude.{
  Bool, true, false, if◌then◌else◌, not, ◌||◌, ◌==◌, ◌!=◌, ℕ, ◌+◌, ◌*◌, ◌/◌, ◌%◌, ◌^◌, Option, none,
  some, List, [], ◌∷◌, set, u16,
}
use libdvdnav.Prelude.Program.{pure, get, assert, when◌then◌else◌, ◌>>=◌, ◌>>◌}
use libdvdnav.Decoder.State.{Link, exit, play_this}
use libdvdnav.Vm.Disc.{Ifo}
use libdvdnav.Vm.State.{
  V, Vm, Domain, vts_title, vts_menu, vmgm, first_play, get_state, put_state, sprm, put_sprm,
  hl_btnn_reg, vts_ttn_reg, ttn_reg,
}
use libdvdnav.Vm.Lookup.{get_tt}
use libdvdnav.Vm.Sets.{
  same_domain, one_of, set_domain, ifo_open_new_vtsi, set_pgcn, set_pgn, set_pg_n, set_menu,
  set_rsm_info,
}
use libdvdnav.Vm.Play.{set_cell_n, play_pgc, play_pg}

unfoldable pub set_button : ℕ → V (Unit {0})
set_button button = when button != 0 then put_sprm hl_btnn_reg (button * 2 ^ 10) else pure tt

-- `link_values.command = Exit`.
abbrev pub to_exit : Link → Link
to_exit l = record l { command = exit }

-- Play on if the jump was possible, and otherwise exit.
unfoldable pub or_exit : Link → Bool → V Link → V Link
or_exit l possible play = when possible then play else pure (to_exit l)

abbrev pub has_menus : Option Ifo → Bool
has_menus none = false
has_menus (some h) = elim h.pgci_ut [ none ↦ false | some _ ↦ true ]

-- A loop that writes the values to an array from entry `k` on.
unfoldable pub write_from : ℕ → List ℕ → List ℕ → List ℕ
write_from k [] xs = xs
write_from k (v ∷ vs) xs = write_from (k + 1) vs (set xs k v)

-- The registers of the resume information, back in 4 to 8.
unfoldable pub restore_registers : V (Unit {0})
restore_registers = do
  s ← get_state
  let r = s.registers
  put_state (record s { registers = record r { sprm = write_from 4 s.rsm_regs r.sprm } })

module _ (left : ℕ) where
  -- One pass of the loop on a neighbour of the current program chain.
  unfoldable pub play_other_pgc : Link → ℕ → V Link
  play_other_pgc l n = do assert (n != 0); possible ← set_pgcn n; or_exit l possible (play_pgc left)

  unfoldable pub resume : Link → V Link
  resume l = do
    s ← get_state
    when s.rsm_vts_n == 0 then pure (to_exit l) else (do
      set_domain vts_title
      opened ← ifo_open_new_vtsi s.rsm_vts_n
      assert opened
      possible ← set_pgcn s.rsm_pgc_n
      restore_registers
      set_button l.data1
      t ← get_state
      when t.rsm_cell_n == 0 then (do assert (t.cell_n != 0); set_pg_n 1; play_pg left) else (do
        set_cell_n t.rsm_cell_n
        found ← set_pgn
        assert found
        pure (record l {
          command = play_this;
          data1 = t.rsm_block_n % 2 ^ 16;
          data2 = u16 (t.rsm_block_n / 2 ^ 16);
        })))

  -- A menu or a program chain of the video manager.
  unfoldable pub enter_vmgm : V Bool → V Link
  enter_vmgm jump = do set_domain vmgm; possible ← jump; assert possible; play_pgc left

  -- The menu of JumpSS_VTSM, once its title set is loaded.
  unfoldable pub enter_vtsm : Link → V Link
  enter_vtsm l = do
    put_sprm vts_ttn_reg l.data2
    s ← get_state
    ttn ← sprm vts_ttn_reg
    tt ← get_tt s.vts_n ttn
    put_sprm ttn_reg tt
    possible ← set_menu l.data3
    assert possible
    play_pgc left

  unfoldable pub jump_vtsm : Link → V Link
  jump_vtsm l = do
    s ← get_state
    when l.data1 == 0 then (do assert (same_domain s.domain vts_menu); enter_vtsm l) else (do
      (when l.data1 != s.vts_n
          then (do
            assert (one_of s.domain vmgm first_play)
            opened ← ifo_open_new_vtsi l.data1
            assert opened)
          else assert (same_domain s.domain vts_menu || one_of s.domain vmgm first_play))
      vm ← get
      when has_menus vm.vtsi then (do set_domain vts_menu; enter_vtsm l) else pure (to_exit l))

  -- The calls from a title: they save the resume information first.
  unfoldable pub call_menu : Link → (Vm → Option Ifo) → Domain → V Bool → V Link
  call_menu l manager domain jump = do
    vm ← get
    assert (same_domain vm.state.domain vts_title)
    when has_menus (manager vm)
        then (do
          set_rsm_info l.data2 0
          set_domain domain
          possible ← jump
          assert possible
          play_pgc left)
        else pure (to_exit l)

  unfoldable pub jump_vmgm : Link → V Bool → V Link
  jump_vmgm l jump = do
    vm ← get
    assert (not (same_domain vm.state.domain vts_title))
    when has_menus vm.vmgi then enter_vmgm jump else pure (to_exit l)
