-- ===== src/Searching/Seek.antt =====
-- Positions in a program or a program chain, and the searches of searching.c for one.
use libdvdnav.Prelude.{
  Bool, true, false, if◌then◌else◌, not, ◌&&◌, ◌||◌, ◌==◌, ◌!=◌, leb, ltb, ℕ, zero, suc, ◌+◌, ◌-◌,
  ◌*◌, ◌/◌, ◌^◌, Option, none, some, List, length, get_elem?, u32, u64, sub32,
}
use libdvdnav.Prelude.Int.{ℤ, pos, int_ltb, int_add, int32, to_u32}
use libdvdnav.Prelude.Program.{pure, get, assert, element, when◌then◌else◌, ◌>>=◌, ◌>>◌}
use libdvdnav.Vm.Disc.{Cell, Pgc}
use libdvdnav.Vm.State.{V, Vm, State, get_state, current_pgc}
use libdvdnav.Vm.Sets.{entry, same_domain}
use libdvdnav.Vm.Position.{Position}
use libdvdnav.Vm.Jumps.{vm_jump_cell_block}
use libdvdnav.Player.State.{Dvdnav, P, run_vm, update, hop_seek, minus_one}
use libdvdnav.Player.Time.{dvdnav_convert_time, other_angle}
use libdvdnav.Navigation.{is_some}
use libdvdnav.Searching.{dvdnav_scan_admap}

-- The numbers of the first and the last cell of the program chain or the program.
unfoldable pub range_of : (pgc_based : Bool) → State → Pgc → V (ℕ × ℕ)
unfolding ◌>>=◌
range_of true s pgc = pure (1, length pgc.cell_playback)
range_of false s pgc = do
  first ← element (entry pgc.program_map s.pg_n)
  when ltb s.pg_n (length pgc.program_map)
      then (do next ← element (entry pgc.program_map (suc s.pg_n)); pure (first, sub32 next 1))
      else pure (first, length pgc.cell_playback)

abbrev pub sectors_of : Cell → ℕ
sectors_of cell = u32 (sub32 cell.last_sector cell.first_sector + 1)

-- The loop over `count` cells from number `i` on.
unfoldable pub position_from :
    (cur_sector cell_n i count : ℕ) → List Cell → (at len : ℕ) → V (ℕ × ℕ)
unfolding ◌>>=◌ other_angle
position_from cur_sector cell_n i zero cells at len = pure (at, len)
position_from cur_sector cell_n i (suc count) cells at len = do
  cell ← element (entry cells i)
  when other_angle cell
      then position_from cur_sector cell_n (suc i) count cells at len
      else position_from cur_sector cell_n (suc i) count cells
          (if i == cell_n then sub32 (u32 (len + cur_sector)) cell.first_sector else at)
          (u32 (len + sectors_of cell))

-- The last number is signed here, so a 0 in the program map ends the loop at once.
abbrev pub signed_count : ℕ × ℕ → ℕ
signed_count (first, last) = if ltb last (2 ^ 31) then suc last - first else 0

unfoldable pub position_in : (pgc_based : Bool) → (cur_sector : ℕ) → V (Option (ℕ × ℕ))
unfolding ◌>>=◌ get_state current_pgc range_of position_from
position_in pgc_based cur_sector = do
  s ← get_state
  pgc ← current_pgc
  (first, last) ← range_of pgc_based s pgc
  (at, len) ←
      position_from cur_sector s.cell_n first (signed_count (first, last)) pgc.cell_playback
        minus_one 0
  assert (at != minus_one)
  pure (some (at, len))

-- The player has told the position that the machine is at.
unfoldable pub is_determined : Dvdnav → Bool
is_determined this =
    let vm : Vm = this.vm in
    let at : Position = this.position_current in
    at.hop_channel == vm.hop_channel
    && same_domain at.domain vm.state.domain
    && at.vts == vm.state.vts_n
    && at.cell_restart == vm.state.cell_restart

abbrev pub current_sector : Dvdnav → ℕ
current_sector this = u32 (this.vobu.vobu_start + this.vobu.block_n)

-- `none` is DVDNAV_STATUS_ERR.
unfoldable pub dvdnav_get_position : P (Option (ℕ × ℕ))
unfolding ◌>>=◌ run_vm is_determined position_in
dvdnav_get_position = do
  this ← get
  when this.started && is_some this.vm.state.pgc && not this.vm.stopped && is_determined this
      then run_vm (position_in this.pgc_based (current_sector this))
      else pure none

unfoldable pub position_in_title : (cur_sector : ℕ) → V (Option (ℕ × ℕ))
unfolding ◌>>=◌ current_pgc
position_in_title cur_sector = do
  pgc ← current_pgc
  first_cell_nr ← element (get_elem? pgc.program_map 0)
  first_cell ← element (entry pgc.cell_playback first_cell_nr)
  last_cell ← element (entry pgc.cell_playback (length pgc.cell_playback))
  pure (
      some (
        sub32 cur_sector first_cell.first_sector,
        sub32 last_cell.last_sector first_cell.first_sector,
      ))

unfoldable pub dvdnav_get_position_in_title : P (Option (ℕ × ℕ))
unfolding ◌>>=◌ run_vm position_in_title
dvdnav_get_position_in_title = do
  this ← get
  when is_some this.vm.state.pgc
      then run_vm (position_in_title (current_sector this))
      else pure none

-- The loop of the search for a time: the cell, and the sector by interpolation.
unfoldable pub time_from : (i count : ℕ) → List Cell → (target : ℕ) → V (Option (ℕ × ℕ))
unfolding ◌>>=◌ other_angle dvdnav_convert_time
time_from i zero cells target = pure none
time_from i (suc count) cells target = do
  cell ← element (entry cells i)
  when other_angle cell
      then time_from (suc i) count cells target
      else (when leb (dvdnav_convert_time cell.playback_time) target
          then time_from (suc i) count cells (target - dvdnav_convert_time cell.playback_time)
          else pure (
              some (
                i,
                u64 (
                    u64 (target * sectors_of cell) / dvdnav_convert_time cell.playback_time
                    + cell.first_sector),
              )))

unfoldable pub find_time : (pgc_based : Bool) → (time : ℕ) → V (Option (ℕ × ℕ))
unfolding ◌>>=◌ get_state current_pgc range_of time_from
find_time pgc_based time = do
  s ← get_state
  pgc ← current_pgc
  (first, last) ← range_of pgc_based s pgc
  time_from first (suc last - first) pgc.cell_playback time

pub data Origin : Type 0 where
  seek_set seek_cur seek_end other_origin : Origin

-- The target of a search for a sector, `none` if it is refused.
unfoldable pub seek_target : Origin → (offset : ℤ) → (current len : ℕ) → Option ℕ
unfolding int32
seek_target seek_set offset current len =
    if not (int_ltb offset (pos len)) then none else some (to_u32 offset)
seek_target seek_cur offset current len =
    if not (int_ltb (int_add (int32 current) offset) (pos len))
      || int_ltb (int_add (int32 current) offset) (pos 0)
    then none
    else some (u32 (current + to_u32 offset))
seek_target seek_end offset current len =
    if int_ltb (pos len) offset then none else some (sub32 len (to_u32 offset))
seek_target other_origin offset current len = none

-- The unit after the current one, which may be in the next cell.
unfoldable pub next_unit : (i last : ℕ) → Cell → List Cell → Option ℕ → V (Option (ℕ × ℕ))
unfolding ◌>>=◌
next_unit i last cell cells none = pure none
next_unit i last cell cells (some vobu) =
    when ltb cell.last_sector vobu
    then (when i == last
        then pure none
        else (do next ← element (entry cells (suc i)); pure (some (suc i, next.first_sector))))
    else pure (some (i, vobu))

-- A search forward in the current cell goes past the current sector.
unfoldable pub past_current :
    (i last cur_sector target : ℕ) → Cell → List Cell → Option ℕ → V (Option (ℕ × ℕ))
unfolding ◌>>=◌ get_state dvdnav_scan_admap next_unit
past_current i last cur_sector target cell cells none = pure none
past_current i last cur_sector target cell cells (some vobu) =
    when leb vobu cur_sector
    then (do
      s ← get_state
      next ← dvdnav_scan_admap s.domain target true
      next_unit i last cell cells next)
    else pure (some (i, target))

unfoldable pub sector_at :
    (forward : Bool) → (i last cur_sector target : ℕ) → Cell → List Cell → V (Option (ℕ × ℕ))
unfolding ◌>>=◌ get_state dvdnav_scan_admap past_current
sector_at forward i last cur_sector target cell cells = do
  s ← get_state
  when forward && i == s.cell_n
      then (do
        vobu ← dvdnav_scan_admap s.domain target false
        past_current i last cur_sector target cell cells vobu)
      else pure (some (i, target))

-- The loop of the search for a sector.
unfoldable pub sector_from :
    (forward : Bool) → (last cur_sector i count : ℕ) → List Cell → (target : ℕ) → V (Option (ℕ × ℕ))
unfolding ◌>>=◌ other_angle sector_at
sector_from forward last cur_sector i zero cells target = pure none
sector_from forward last cur_sector i (suc count) cells target = do
  cell ← element (entry cells i)
  when other_angle cell
      then sector_from forward last cur_sector (suc i) count cells target
      else (when leb (sectors_of cell) target
          then sector_from forward last cur_sector (suc i) count cells (target - sectors_of cell)
          else sector_at forward i last cur_sector (u32 (target + cell.first_sector)) cell cells)

unfoldable pub find_sector :
    (pgc_based forward : Bool) → (cur_sector target : ℕ) → V (Option (ℕ × ℕ))
unfolding ◌>>=◌ get_state current_pgc range_of sector_from
find_sector pgc_based forward cur_sector target = do
  s ← get_state
  pgc ← current_pgc
  (first, last) ← range_of pgc_based s pgc
  sector_from forward last cur_sector first (suc last - first) pgc.cell_playback target

module _ (left rounds : ℕ) where
  unfoldable pub jump_to_unit : (cell_nr : ℕ) → Option ℕ → P Bool
  unfolding ◌>>=◌ run_vm current_pgc update
  jump_to_unit cell_nr none = pure false
  jump_to_unit cell_nr (some vobu) = do
    pgc ← run_vm current_pgc
    cell ← element (entry pgc.cell_playback cell_nr)
    jumped ← run_vm (vm_jump_cell_block left rounds cell_nr (sub32 vobu cell.first_sector))
    when jumped
        then (do
          update (λ this.
              let vm : Vm = this.vm in
              record this { vm = record vm { hop_channel = u32 (vm.hop_channel + hop_seek) } })
          pure true)
        else pure false

  -- The jump to the unit that holds the sector that was found.
  unfoldable pub seek_found : Option (ℕ × ℕ) → P Bool
  unfolding ◌>>=◌ run_vm dvdnav_scan_admap jump_to_unit
  seek_found none = pure false
  seek_found (some (cell_nr, target)) = do
    this ← get
    vobu ← run_vm (dvdnav_scan_admap this.vm.state.domain (u32 target) false)
    jump_to_unit cell_nr vobu

  unfoldable pub dvdnav_time_search : (time : ℕ) → P Bool
  unfolding ◌>>=◌ run_vm update find_time seek_found
  dvdnav_time_search time = do
    this ← get
    when this.position_current.still == 0 && is_some this.vm.state.pgc
        then (do
          update (λ now. record now { cur_cell_time = 0 })
          found ← run_vm (find_time this.pgc_based time)
          seek_found found)
        else pure false

  unfoldable pub seek_sector : (current : ℕ) → Option ℕ → P Bool
  unfolding ◌>>=◌ run_vm update find_sector seek_found
  seek_sector current none = pure false
  seek_sector current (some target) = do
    this ← get
    update (λ now. record now { cur_cell_time = 0 })
    found ← run_vm (find_sector this.pgc_based (ltb current target) (current_sector this) target)
    seek_found found

  unfoldable pub seek_from : Origin → (offset : ℤ) → Option (ℕ × ℕ) → P Bool
  unfolding ◌>>=◌ seek_target seek_sector
  seek_from origin offset none = pure false
  seek_from origin offset (some (current, len)) = do
    this ← get
    when is_some this.vm.state.pgc
        then seek_sector current (seek_target origin offset current len)
        else pure false

  -- A sum that leaves 64 bits is not reached.
  unfoldable pub dvdnav_sector_search : (offset : ℤ) → Origin → P Bool
  unfolding ◌>>=◌ dvdnav_get_position seek_from
  dvdnav_sector_search offset origin = do
    this ← get
    when this.position_current.still == 0
        then (dvdnav_get_position >>= seek_from origin offset)
        else pure false
