-- ===== src/Player/Time.antt =====
-- The times of dvdnav.c, in ticks of 1/90000 second.
use libdvdnav.Prelude.{
  Bool, if◌then◌else◌, ◌&&◌, ◌==◌, ◌!=◌, truth, ℕ, zero, suc, ◌+◌, ◌-◌, ◌*◌, shr, bit_and, List,
  get_elem?,
}
use libdvdnav.Prelude.Program.{pure, get, element, when◌then◌else◌, ◌>>=◌}
use libdvdnav.Vm.Disc.{DvdTime, Cell}
use libdvdnav.Vm.State.{V, current_pgc, get_state}
use libdvdnav.Vm.Sets.{entry}
use libdvdnav.Player.State.{P, run_vm}

unfoldable pub dvdnav_convert_time : DvdTime → ℕ
dvdnav_convert_time time =
    let result : ℕ =
      shr time.hour 4 * 10 * 60 * 60 * 90000
      + bit_and time.hour 0x0f * 60 * 60 * 90000
      + shr time.minute 4 * 10 * 60 * 90000
      + bit_and time.minute 0x0f * 60 * 90000
      + shr time.second 4 * 10 * 90000
      + bit_and time.second 0x0f * 90000 in
    let frames : ℕ = shr (bit_and time.frame_u 0x30) 4 * 10 + bit_and time.frame_u 0x0f in
    if truth (bit_and time.frame_u 0x80) then result + frames * 3000 else result + frames * 3600

-- The times of `count` cells from cell number `i` on. A cell that is not there is a fault.
unfoldable pub cells_time : (i count : ℕ) → List Cell → V ℕ
unfolding ◌>>=◌ dvdnav_convert_time
cells_time i zero cells = pure 0
cells_time i (suc count) cells = do
  cell ← element (entry cells i)
  rest ← cells_time (suc i) count cells
  pure (dvdnav_convert_time cell.playback_time + rest)

-- A cell of an angle block that is not its first.
unfoldable pub other_angle : Cell → Bool
other_angle cell = cell.block_type == 1 && cell.block_mode != 1

-- The cells before the current one, of an angle block only the first.
unfoldable pub elapsed_cells : (i count : ℕ) → List Cell → V ℕ
unfolding ◌>>=◌ dvdnav_convert_time other_angle
elapsed_cells i zero cells = pure 0
elapsed_cells i (suc count) cells = do
  cell ← element (get_elem? cells i)
  rest ← elapsed_cells (suc i) count cells
  pure (if other_angle cell then rest else dvdnav_convert_time cell.playback_time + rest)

unfoldable pub time_before : V ℕ
unfolding ◌>>=◌ current_pgc get_state elapsed_cells
time_before = do
  s ← get_state
  when s.cell_n - 1 == 0
      then pure 0
      else (do pgc ← current_pgc; elapsed_cells 0 (s.cell_n - 1) pgc.cell_playback)

unfoldable pub dvdnav_get_current_time : P ℕ
unfolding ◌>>=◌ run_vm time_before
dvdnav_get_current_time = do this ← get; tm ← run_vm time_before; pure (tm + this.cur_cell_time)
