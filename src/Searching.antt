-- ===== src/Searching.antt =====
-- src/searching.c: the search for the unit (VOBU) of the disc that holds a sector.
use libdvdnav.Prelude.{
  Bool, true, false, if◌then◌else◌, ◌&&◌, leb, ltb, ℕ, Option, none, some, List, [], ◌∷◌,
}
use libdvdnav.Prelude.Program.{pure, get, ◌>>=◌}
use libdvdnav.Vm.Disc.{Ifo}
use libdvdnav.Vm.State.{
  V, Vm, State, Domain, first_play, vmgm, vts_menu, vts_title, get_vmgi, get_vtsi,
}
pub mod Admap
pub mod Programs
pub mod Seek
pub mod Steps
pub mod Target
pub mod Tried
pub mod Tests

-- The table of the start sectors in a domain, `none` for NULL.
unfoldable pub admap_of : Domain → V (Option (List ℕ))
admap_of first_play = do h ← get_vmgi; pure h.menu_vobu_admap
admap_of vmgm = do h ← get_vmgi; pure h.menu_vobu_admap
admap_of vts_menu = do h ← get_vtsi; pure h.menu_vobu_admap
admap_of vts_title = do h ← get_vtsi; pure h.vts_vobu_admap

-- The loop over the table: the last start sector, and the one that was read last.
unfoldable pub scan_entries : (seekto : ℕ) → List ℕ → (vobu_start next_vobu : ℕ) → ℕ × ℕ
scan_entries seekto [] vobu_start next_vobu = (vobu_start, next_vobu)
scan_entries seekto (e ∷ entries) vobu_start next_vobu =
    if leb vobu_start seekto && ltb seekto e
    then (vobu_start, e)
    else scan_entries seekto entries e e

abbrev pub sri_end_of_cell : ℕ
sri_end_of_cell = 0x3fffffff

abbrev pub chosen : Bool → ℕ × ℕ → ℕ
chosen next (vobu_start, next_vobu) = if next then next_vobu else vobu_start

-- `none` is DVDNAV_STATUS_ERR, which leaves -1 in `*vobu`.
unfoldable pub scan_table : Option (List ℕ) → ℕ → Bool → Option ℕ
scan_table none seekto next = none
scan_table (some admap) seekto next =
    some (chosen next (scan_entries seekto admap sri_end_of_cell 0))

unfoldable pub dvdnav_scan_admap : Domain → ℕ → Bool → V (Option ℕ)
dvdnav_scan_admap domain seekto next = do
  admap ← admap_of domain
  pure (scan_table admap seekto next)
