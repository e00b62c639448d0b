-- ===== src/Vm/Play.antt =====
-- The play functions of vm/vm.c. A program chain that plays nothing goes on with the next one, so
-- they run on fuel: `left` is the number of further program chains that may be entered.
use libdvdnav.Prelude.{
  Bool, false, if◌then◌else◌, ◌&&◌, ◌==◌, ◌!=◌, ltb, leb, ℕ, zero, suc, ◌+◌, ◌-◌, Option, none,
  some, List, [], ◌∷◌, length,
}
use libdvdnav.Prelude.Program.{
  pure, abort, out_of_fuel, element, assert, when◌then◌else◌, ◌>>=◌, ◌>>◌,
}
use libdvdnav.Decoder.State.{Link, LinkCmd, exit, play_this}
use libdvdnav.Decoder.Eval.{VmCmd}
use libdvdnav.Vm.Disc.{Cell, CommandTbl, Pgc}
use libdvdnav.Vm.State.{V, get_state, put_state, current_pgc, sprm, agl_reg, run_commands}
use libdvdnav.Vm.Sets.{entry, set_pgcn, set_pgn}

abbrev pub link_of : LinkCmd → Link
link_of c = record { command = c; data1 = 0; data2 = 0; data3 = 0 }

unfoldable pub set_cell_n : ℕ → V (Unit {0})
set_cell_n n = do s ← get_state; put_state (record s { cell_n = n })

-- The cell that the state names.
unfoldable pub current_cell : V Cell
current_cell = do pgc ← current_pgc; s ← get_state; element (entry pgc.cell_playback s.cell_n)

-- The commands of one kind, if the program chain has a command table.
unfoldable pub run_table : (CommandTbl → List VmCmd) → V (Option Link)
run_table part = do
  pgc ← current_pgc
  elim pgc.command_tbl [
    | none ↦ pure none
    | some table ↦ when length (part table) == 0 then pure none else run_commands (part table)
  ]

unfoldable pub is_angle : Pgc → ℕ → Bool
is_angle pgc cell = leb cell (length pgc.cell_playback) && (elim (entry pgc.cell_playback cell) [
  | none ↦ false
  | some c ↦ c.block_mode != 0 && c.block_type == 1
])

-- From the first cell of an angle block to that of the current angle, if the block has it. The
-- angle 0 of the first cell reads in front of the array.
unfoldable pub choose_angle : V (Unit {0})
choose_angle = do
  pgc ← current_pgc
  s ← get_state
  angle ← sprm agl_reg
  let cell = s.cell_n + angle - 1
  when cell == 0 then element none else when is_angle pgc cell then set_cell_n cell else pure tt

unfoldable pub enter_block : Cell → V (Unit {0})
enter_block cell =
    when cell.block_mode == 0
    then assert (cell.block_type == 0)
    else when cell.block_mode == 1
    then (when cell.block_type == 1 then choose_angle else abort)
    else pure tt

-- `play_Cell` with `post` for play_PGC_post.
unfoldable pub play_cell_with : V Link → V Link
play_cell_with post = do
  pgc ← current_pgc
  s ← get_state
  assert (ltb 0 s.cell_n)
  when ltb (length pgc.cell_playback) s.cell_n
      then (do assert (s.cell_n == length pgc.cell_playback + 1); post)
      else (do
        cell ← current_cell
        enter_block cell
        found ← set_pgn
        assert found
        t ← get_state
        put_state (record t { cell_restart = t.cell_restart + 1; block_n = 0 })
        pure (link_of play_this))

unfoldable pub play_pg_with : V Link → V Link
play_pg_with post = do
  pgc ← current_pgc
  s ← get_state
  assert (ltb 0 s.pg_n)
  when ltb (length pgc.program_map) s.pg_n
      then (do assert (s.pg_n == length pgc.program_map + 1); post)
      else (do cell ← element (entry pgc.program_map s.pg_n); set_cell_n cell; play_cell_with post)

-- `play_PGC_PG`, of which `play_PGC` is the case of program 1.
unfoldable pub play_pgc_pg_with : ℕ → V Link → V Link
play_pgc_pg_with pg post = do
  s ← get_state
  put_state (record s { pg_n = pg; cell_n = 0; block_n = 0 })
  jump ← run_table (λ t. t.pre_cmds)
  elim jump [ some link ↦ pure link | none ↦ play_pg_with post ]

unfoldable pub play_pgc_post : ℕ → V Link
play_pgc_post left = do
  jump ← run_table (λ t. t.post_cmds)
  elim jump [
    | some link ↦ pure link
    | none ↦ do
      pgc ← current_pgc
      found ← set_pgcn pgc.next_pgc_nr
      elim left [
        | zero ↦ when found then out_of_fuel else pure (link_of exit)
        | suc (left → rest) ↦ when found then play_pgc_pg_with 1 rest else pure (link_of exit)
      ]
  ]

unfoldable pub play_pgc : ℕ → V Link
play_pgc left = play_pgc_pg_with 1 (play_pgc_post left)

unfoldable pub play_pgc_pg : ℕ → ℕ → V Link
play_pgc_pg left pg = play_pgc_pg_with pg (play_pgc_post left)

unfoldable pub play_pg : ℕ → V Link
play_pg left = play_pg_with (play_pgc_post left)

unfoldable pub play_cell : ℕ → V Link
play_cell left = play_cell_with (play_pgc_post left)

-- The command of a cell, if its number is one of the table.
unfoldable pub run_cell_command : Cell → Pgc → V (Option Link)
run_cell_command cell pgc = when cell.cell_cmd_nr == 0 then pure none else (elim pgc.command_tbl [
  | none ↦ pure none
  | some table ↦
      when leb cell.cell_cmd_nr (length table.cell_cmds)
      then (do
        command ← element (entry table.cell_cmds cell.cell_cmd_nr)
        run_commands (command ∷ []))
      else pure none
])

-- How many of these cells belong to the block that the first one is in.
unfoldable pub count_block : List Cell → ℕ
count_block [] = 0
count_block (c ∷ cells) = if leb 2 c.block_mode then suc (count_block cells) else 0

unfoldable pub drop_cells : ℕ → List Cell → List Cell
drop_cells zero cells = cells
drop_cells (suc n) [] = []
drop_cells (suc n) (c ∷ cells) = drop_cells n cells

unfoldable pub leave_block : Cell → Pgc → V (Unit {0})
leave_block cell pgc = do
  s ← get_state
  when cell.block_mode == 0
      then (do assert (cell.block_type == 0); set_cell_n (s.cell_n + 1))
      else when cell.block_type == 1
      then set_cell_n (s.cell_n + 1 + count_block (drop_cells s.cell_n pgc.cell_playback))
      else abort

unfoldable pub play_cell_post : ℕ → V Link
play_cell_post left = do
  pgc ← current_pgc
  cell ← current_cell
  jump ← run_cell_command cell pgc
  elim jump [
    | some link ↦ pure link
    | none ↦ do
      leave_block cell pgc
      found ← set_pgn
      when found then play_cell left else play_pgc_post left
  ]
