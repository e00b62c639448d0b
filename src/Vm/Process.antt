-- ===== src/Vm/Process.antt =====
-- process_command of vm/vm.c: the loop that follows links until a cell is to be played.
use libdvdnav.Prelude.{Bool, true, false, ltb, ℕ, zero, suc, ◌+◌, ◌-◌, ◌*◌, ◌^◌, bit_or}
use libdvdnav.Prelude.Program.{pure, out_of_fuel, get, put, assert, ◌>>=◌, ◌>>◌}
use libdvdnav.Decoder.State.{
  Link, LinkCmd, link_no_link, link_top_c, link_next_c, link_prev_c, link_top_pg, link_next_pg,
  link_prev_pg, link_top_pgc, link_next_pgc, link_prev_pgc, link_go_up_pgc, link_tail_pgc, link_rsm,
  link_pgcn, link_pttn, link_pgn, link_cn, exit, jump_tt, jump_vts_tt, jump_vts_ptt, jump_ss_fp,
  jump_ss_vmgm_menu, jump_ss_vtsm, jump_ss_vmgm_pgc, call_ss_fp, call_ss_vmgm_menu, call_ss_vtsm,
  call_ss_vmgm_pgc, play_this,
}
use libdvdnav.Vm.State.{
  V, vts_title, vts_menu, vmgm, first_play, get_state, put_state, current_pgc, sprm, vts_ttn_reg,
}
use libdvdnav.Vm.Sets.{
  same_domain, one_of, set_pgcn, set_pg_n, set_tt, set_vts_tt, set_vts_ptt, set_fp_pgc, set_menu,
  set_rsm_info,
}
use libdvdnav.Vm.Play.{set_cell_n, play_pgc, play_pgc_pg, play_pgc_post, play_pg, play_cell}
use libdvdnav.Vm.Links.{
  set_button, or_exit, play_other_pgc, resume, jump_vtsm, call_menu, jump_vmgm,
}

module _ (left : ℕ) where
  -- The `switch` of the loop, for the commands that go on.
  unfoldable pub follow : LinkCmd → Link → V Link
  follow link_top_c l = do set_button l.data1; play_cell left
  follow link_next_c l = do
    set_button l.data1
    s ← get_state
    set_cell_n (s.cell_n + 1)
    play_cell left
  follow link_prev_c l = do
    set_button l.data1
    s ← get_state
    assert (ltb 1 s.cell_n)
    set_cell_n (s.cell_n - 1)
    play_cell left
  follow link_top_pg l = do set_button l.data1; play_pg left
  follow link_next_pg l = do set_button l.data1; s ← get_state; set_pg_n (s.pg_n + 1); play_pg left
  follow link_prev_pg l = do
    set_button l.data1
    s ← get_state
    assert (ltb 1 s.pg_n)
    set_pg_n (s.pg_n - 1)
    play_pg left
  follow link_top_pgc l = do set_button l.data1; play_pgc left
  follow link_next_pgc l = do
    set_button l.data1
    pgc ← current_pgc
    play_other_pgc left l pgc.next_pgc_nr
  follow link_prev_pgc l = do
    set_button l.data1
    pgc ← current_pgc
    play_other_pgc left l pgc.prev_pgc_nr
  follow link_go_up_pgc l = do
    set_button l.data1
    pgc ← current_pgc
    play_other_pgc left l pgc.goup_pgc_nr
  follow link_tail_pgc l = do set_button l.data1; play_pgc_post left
  follow link_rsm l = resume left l
  follow link_pgcn l = do possible ← set_pgcn l.data1; assert possible; play_pgc left
  follow link_pttn l = do
    s ← get_state
    assert (same_domain s.domain vts_title)
    set_button l.data2
    ttn ← sprm vts_ttn_reg
    possible ← set_vts_ptt s.vts_n ttn l.data1
    or_exit l possible (play_pg left)
  follow link_pgn l = do set_button l.data2; set_pg_n l.data1; play_pg left
  follow link_cn l = do set_button l.data2; set_cell_n l.data1; play_cell left
  follow jump_tt l = do
    s ← get_state
    assert (one_of s.domain vmgm first_play)
    possible ← set_tt l.data1
    or_exit l possible (play_pgc left)
  follow jump_vts_tt l = do
    s ← get_state
    assert (one_of s.domain vts_menu vts_title)
    possible ← set_vts_tt s.vts_n l.data1
    or_exit l possible (play_pgc left)
  follow jump_vts_ptt l = do
    s ← get_state
    assert (one_of s.domain vts_menu vts_title)
    possible ← set_vts_ptt s.vts_n l.data1 l.data2
    t ← get_state
    or_exit l possible (play_pgc_pg left t.pg_n)
  follow jump_ss_fp l = do
    s ← get_state
    assert (one_of s.domain vmgm vts_menu)
    possible ← set_fp_pgc
    assert possible
    play_pgc left
  follow jump_ss_vmgm_menu l = jump_vmgm left l (set_menu l.data1)
  follow jump_ss_vtsm l = jump_vtsm left l
  follow jump_ss_vmgm_pgc l = jump_vmgm left l (set_pgcn l.data1)
  follow call_ss_fp l = do
    s ← get_state
    assert (same_domain s.domain vts_title)
    set_rsm_info l.data1 0
    possible ← set_fp_pgc
    play_pgc left
  follow call_ss_vmgm_menu l = call_menu left l (λ vm. vm.vmgi) vmgm (set_menu l.data1)
  follow call_ss_vtsm l = call_menu left l (λ vm. vm.vtsi) vts_menu (set_menu l.data1)
  follow call_ss_vmgm_pgc l = call_menu left l (λ vm. vm.vmgi) vmgm (set_pgcn l.data1)
  follow _ l = pure l

  unfoldable pub set_block_n : Link → V (Unit {0})
  set_block_n l = do
    s ← get_state
    put_state (record s { block_n = bit_or l.data1 (l.data2 * 2 ^ 16) })

  unfoldable pub stop : V (Unit {0})
  stop = do vm ← get; put (record vm { stopped = true })

  -- The commands that leave the loop, and `again` for the others.
  unfoldable pub examine : LinkCmd → Link → V Bool → V Bool
  examine play_this l again = do set_block_n l; pure true
  examine link_no_link l again = do set_button l.data1; pure false
  examine exit l again = do stop; pure false
  examine _ l again = again

  -- The loop, which follows at most `rounds` links.
  unfoldable pub process_command : ℕ → Link → V Bool
  process_command zero l = examine l.command l out_of_fuel
  process_command (suc rounds) l =
      examine l.command l (follow l.command l >>= process_command rounds)
