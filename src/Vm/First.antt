-- ===== src/Vm/First.antt =====
-- Entering a program chain in vm/vm.c plays the first cell of its first program.
use libdvdnav.Prelude.{
  true, false, ltb, ℕ, zero, suc, ◌+◌, ◌≤◌, ◌≡◌, inl, inr, refl, sym, ◌∙◌, arith, some, none, List,
  ◌∷◌, get_elem?, length, lt_of_get_elem?,
}
use libdvdnav.Prelude.Program.{value, ◌>>=◌}
use libdvdnav.Decoder.State.{Link, play_this}
use libdvdnav.Vm.Disc.{Cell, Pgc}
use libdvdnav.Vm.State.{V, Vm, vts_title, get_state, put_state, current_pgc}
use libdvdnav.Vm.Sets.{same_domain, entry, set_pgn}
use libdvdnav.Vm.Programs.{ProgramOf, set_pgn_lem}
use libdvdnav.Vm.Play.{
  link_of, set_cell_n, current_cell, run_table, enter_block, play_cell_with, play_pg_with,
  play_pgc_pg_with, play_pgc, play_pgc_post,
}
use libdvdnav.Vm.Process.{process_command, examine, set_block_n}

-- The machine after the change of cell, program, restart counter and block.
abbrev pub at_cell : Vm → (cell_n pg_n : ℕ) → Vm
at_cell vm cell pg = record vm {
  state = record (vm.state) {
    cell_n = cell;
    pg_n = pg;
    cell_restart = vm.state.cell_restart + 1;
    block_n = 0;
  };
}

abbrev moved : Vm → (cell_n pg_n : ℕ) → Vm
moved vm cell pg = record vm { state = record (vm.state) { cell_n = cell; pg_n = pg; block_n = 0 } }

-- set_PGN succeeds at a cell that exists.
set_pgn_at :
    (vm : Vm) (p : ℕ) (pgc : Pgc) (cell pg : ℕ)
    → vm.state.pgc ≡ some p
    → get_elem? vm.pgcs p ≡ some pgc
    → same_domain vm.state.domain vts_title ≡ false
    → cell ≤ length pgc.cell_playback
    → (n : ℕ) × ProgramOf cell pgc.program_map n
      × (set_pgn (moved vm cell pg) ≡ value true (moved vm cell n))
set_pgn_at vm p pgc cell pg e at outside inside =
    let (n, program, result) = set_pgn_lem (moved vm cell pg) p pgc e at outside in
    elim result [ inl (all, past, _) ↦ absurd (omega arith) | inr (_, good) ↦ (n, program, good) ]

cell_plays :
    (post : V Link) (vm : Vm) (p : ℕ) (pgc : Pgc) (first pg : ℕ) (cell : Cell) (n : ℕ)
    → vm.state.pgc ≡ some p
    → get_elem? vm.pgcs p ≡ some pgc
    → get_elem? pgc.cell_playback first ≡ some cell
    → cell.block_mode ≡ 0
    → cell.block_type ≡ 0
    → ltb (length pgc.cell_playback) (suc first) ≡ false
    → set_pgn (moved vm (suc first) pg) ≡ value true (moved vm (suc first) n)
    → play_cell_with post (moved vm (suc first) pg)
      ≡ value (link_of play_this) (at_cell vm (suc first) n)
unfolding play_cell_with set_cell_n current_cell entry enter_block get_state put_state current_pgc
    ◌>>=◌
cell_plays post vm p pgc first pg cell n e at here mode type within good =
    let begins : ltb 0 (suc first) ≡ true = ground arith in
    rw (e, at, begins, within, at, here, mode, type, sym e, good) refl

program_plays :
    (post : V Link) (vm : Vm) (p : ℕ) (pgc : Pgc) (cell : ℕ) (rest : List ℕ)
    → vm.state.pgc ≡ some p
    → get_elem? vm.pgcs p ≡ some pgc
    → pgc.program_map ≡ cell ∷ rest
    → play_pg_with post (moved vm 0 1) ≡ play_cell_with post (moved vm cell 1)
unfolding play_pg_with set_cell_n entry get_state put_state current_pgc ◌>>=◌
program_plays post vm p pgc cell rest e at starts =
    let any : ltb (suc (length rest)) 1 ≡ false = ground arith in rw (e, at, starts, any) refl

plays_when :
    (left : ℕ) (vm : Vm) (p : ℕ) (pgc : Pgc)
    → vm.state.pgc ≡ some p
    → get_elem? vm.pgcs p ≡ some pgc
    → pgc.command_tbl ≡ none
    → play_pgc left vm ≡ play_pg_with (play_pgc_post left) (moved vm 0 1)
unfolding play_pgc play_pgc_pg_with run_table get_state put_state current_pgc ◌>>=◌
plays_when left vm p pgc e at bare = rw (e, at, bare) refl

done :
    (left rounds : ℕ) (vm : Vm) (cell n : ℕ)
    → process_command left rounds (link_of play_this) (at_cell vm cell n)
      ≡ value true (at_cell vm cell n)
unfolding process_command examine set_block_n get_state put_state ◌>>=◌
done left zero vm cell n = refl
done left (suc rounds) vm cell n = refl

-- A program chain without commands whose first program starts at an ordinary cell, entered outside of
-- a title: play_PGC plays that cell from its start, whatever the fuel, and process_command is
-- then done without following a link.
pub play_pgc_plays :
    (left rounds : ℕ) (vm : Vm) (p : ℕ) (pgc : Pgc) (first : ℕ) (rest : List ℕ) (cell : Cell)
    → vm.state.pgc ≡ some p
    → get_elem? vm.pgcs p ≡ some pgc
    → same_domain vm.state.domain vts_title ≡ false
    → pgc.command_tbl ≡ none
    → pgc.program_map ≡ suc first ∷ rest
    → get_elem? pgc.cell_playback first ≡ some cell
    → cell.block_mode ≡ 0
    → cell.block_type ≡ 0
    → (n : ℕ) × ProgramOf (suc first) pgc.program_map n
      × (play_pgc left vm ≡ value (link_of play_this) (at_cell vm (suc first) n))
      × (process_command left rounds (link_of play_this) (at_cell vm (suc first) n)
          ≡ value true (at_cell vm (suc first) n))
play_pgc_plays left rounds vm p pgc first rest cell e at outside bare starts here mode type =
    let inside = lt_of_get_elem? pgc.cell_playback first cell here in
    let (n, program, good) = set_pgn_at vm p pgc (suc first) 1 e at outside inside in
    let within : ltb (length pgc.cell_playback) (suc first) ≡ false = ground arith in
    (
      n,
      program,
      plays_when left vm p pgc e at bare
          ∙ program_plays (play_pgc_post left) vm p pgc (suc first) rest e at starts
          ∙ cell_plays (play_pgc_post left) vm p pgc first 1 cell n e at here mode type within good,
      done left rounds vm (suc first) n,
    )
