-- ===== src/Vm/Position.antt =====
-- vm_position_get of vm/vm.c: where the machine stands, and how long its picture stands still.
use libdvdnav.Prelude.{
  if◌then◌else◌, ◌&&◌, ◌||◌, ◌==◌, ltb, truth, ℕ, ◌+◌, ◌*◌, ◌/◌, length, shr, bit_and, sub32,
}
use libdvdnav.Prelude.Program.{pure, get, ◌>>=◌}
use libdvdnav.Vm.Disc.{Cell, DvdTime, Pgc}
use libdvdnav.Vm.State.{V, Domain, current_pgc, sprm, agl_reg, hl_btnn_reg}
use libdvdnav.Vm.Play.{current_cell}

-- `vm_position_t`.
pub record Position : Type 0 where
  pub button : ℕ
  pub vts : ℕ
  pub domain : Domain
  pub spu_channel : ℕ
  pub angle_channel : ℕ
  pub audio_channel : ℕ
  pub hop_channel : ℕ
  pub cell : ℕ
  pub cell_restart : ℕ
  pub cell_start : ℕ
  pub still : ℕ
  pub block : ℕ

-- Two decimal digits.
unfoldable pub decimal : ℕ → ℕ
decimal byte = shr byte 4 * 10 + bit_and byte 0x0f

unfoldable pub seconds : DvdTime → ℕ
seconds t = decimal t.hour * 3600 + decimal t.minute * 60 + decimal t.second

-- The still of a cell whose playback time is longer than its data.
unfoldable pub hidden_still : Cell → ℕ
hidden_still cell =
    let size = sub32 cell.last_sector cell.first_sector in
    let time = seconds cell.playback_time in
    if cell.last_sector == cell.last_vobu_start_sector && ltb size 1024
    then (if time == 0 || ltb 30 (size / time) then 0 else if ltb 0xff time then 0xff else time)
    else 0

unfoldable pub still_of : Pgc → ℕ → Cell → ℕ
still_of pgc cell_n cell =
    let still =
      if cell_n == length pgc.cell_playback
      then cell.still_time + pgc.still_time
      else cell.still_time in
    if truth still then still else hidden_still cell

unfoldable pub vm_position_get : V Position
vm_position_get = do
  vm ← get
  let s = vm.state
  button ← sprm hl_btnn_reg
  spu ← sprm 2
  audio ← sprm 1
  angle ← sprm agl_reg
  pgc ← current_pgc
  cell ← current_cell
  pure (record {
    button = shr button 10;
    vts = s.vts_n;
    domain = s.domain;
    spu_channel = spu;
    audio_channel = audio;
    angle_channel = angle;
    hop_channel = vm.hop_channel;
    cell = s.cell_n;
    cell_restart = s.cell_restart;
    cell_start = cell.first_sector;
    still = still_of pgc s.cell_n cell;
    block = s.block_n;
  })
