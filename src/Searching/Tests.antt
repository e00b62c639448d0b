-- ===== src/Searching/Tests.antt =====
-- The search of src/searching.c in a small table: tests, and a use of the theorem.
use libdvdnav.Vm.State.{Vm}
use libdvdnav.Prelude.{List}
use libdvdnav.Vm.Disc.{Cell}
use libdvdnav.Player.State.{minus_one}
use libdvdnav.Searching.Target.{IsPast, IsTarget, sector_from-position_from}
use libdvdnav.Prelude.{◌⊎◌}
use libdvdnav.Vm.Jumps.{menu_root}
use libdvdnav.Player.Tests.{playing}
use libdvdnav.Searching.Programs.{dvdnav_next_pg_search, dvdnav_menu_call}
use libdvdnav.Searching.Tried.{TriedAt, FromCopy, Skips, Calls, dvdnav_next_pg_search-TriedAt}
use libdvdnav.Prelude.{ℕ, ◌≡◌, refl, arith, false, true, some, [], ◌∷◌}
use libdvdnav.Prelude.Program.{value, ◌>>=◌}
use libdvdnav.Vm.State.{vmgm, get_vmgi}
use libdvdnav.Vm.Tests.{machine}
use libdvdnav.Searching.{admap_of, scan_entries, scan_table, dvdnav_scan_admap}
use libdvdnav.Searching.Admap.{Ascends, LastBefore, dvdnav_scan_admap_lem}

menu_table : admap_of vmgm machine ≡ value (some (0 ∷ 12 ∷ 30 ∷ [])) machine
unfolding admap_of get_vmgi ◌>>=◌
menu_table = refl

menu_table-Ascends : Ascends 0 (12 ∷ 30 ∷ [])
unfolding Ascends
menu_table-Ascends = (omega arith, (omega arith, tt))

dvdnav_scan_admap_lem_example :
    (v : ℕ) × (dvdnav_scan_admap vmgm 20 false machine ≡ value (some v) machine)
    × LastBefore 20 (0 ∷ 12 ∷ 30 ∷ []) v
dvdnav_scan_admap_lem_example =
    dvdnav_scan_admap_lem vmgm machine 20 0 (12 ∷ 30 ∷ []) menu_table menu_table-Ascends
      (omega arith) (omega arith)

in_the_middle : scan_table (some (0 ∷ 12 ∷ 30 ∷ [])) 20 false ≡ some 12
unfolding scan_table scan_entries
in_the_middle = refl

the_next : scan_table (some (0 ∷ 12 ∷ 30 ∷ [])) 20 true ≡ some 30
unfolding scan_table scan_entries
the_next = refl

-- Before the first unit the loop runs to the end of the table.
before_the_first : scan_table (some (10 ∷ 12 ∷ 30 ∷ [])) 5 false ≡ some 30
unfolding scan_table scan_entries
before_the_first = refl

dvdnav_next_pg_search-TriedAt_example :
    TriedAt (FromCopy playing.vm (Skips 5 5)) (dvdnav_next_pg_search 5 5 playing) playing
    × (TriedAt
          (FromCopy playing.vm (Calls 5 5 menu_root))
          (dvdnav_menu_call 5 5 menu_root playing)
          playing
        ⊎ TriedAt
            (FromCopy playing.vm (Calls 5 5 menu_root))
            (dvdnav_menu_call 5 5 menu_root playing)
            (record playing { cur_cell_time = 0 }))
dvdnav_next_pg_search-TriedAt_example = dvdnav_next_pg_search-TriedAt 5 5 menu_root playing

abbrev cell_of : (first last : ℕ) → Cell
cell_of first last = record {
  block_mode = 0;
  block_type = 0;
  cell_cmd_nr = 0;
  still_time = 0;
  playback_time = record { hour = 0; minute = 0; second = 1; frame_u = 0x40 };
  first_sector = first;
  last_vobu_start_sector = first;
  last_sector = last;
}

-- Ten sectors and twenty.
abbrev two_cells : List Cell
two_cells = cell_of 100 109 ∷ cell_of 200 219 ∷ []

abbrev first_cell : Vm
first_cell = record machine { state = record (machine.state) { cell_n = 1 } }

-- Forward into the second cell from the first one, which is current.
sector_from-position_from_example :
    IsPast two_cells first_cell true 2 0 1 2 15 minus_one 0
    ⊎ IsTarget two_cells first_cell true 2 0 1 2 15 minus_one 0
sector_from-position_from_example =
    sector_from-position_from two_cells first_cell true 2 0 1 2 15 minus_one 0
      ((omega arith, omega arith), ((omega arith, omega arith), tt)) (omega arith) (omega arith)
      (omega arith)
