-- ===== src/Player/Changes.antt =====
-- The changes of title set, cell, palette and streams in dvdnav_get_next_cache_block of dvdnav.c.
use libdvdnav.Prelude.{
  Bool, true, false, if◌then◌else◌, not, ◌||◌, ◌!=◌, ltb, ℕ, suc, ◌-◌, Option, none, some, length,
}
use libdvdnav.Prelude.Program.{pure, get, element, when◌then◌else◌, ◌>>=◌, ◌>>◌}
use libdvdnav.Vm.Disc.{Pgc}
use libdvdnav.Vm.State.{
  V, State, Domain, first_play, vts_title, vmgm, vts_menu, current_pgc, get_state,
}
use libdvdnav.Vm.Sets.{entry, same_domain}
use libdvdnav.Vm.Streams.{vm_get_subp_active_stream, vm_get_audio_active_stream}
use libdvdnav.ReadCache.State.{Store, dvdnav_read_cache_clear}
use libdvdnav.Player.State.{
  Bytes, Dvdnav, P, ReadDomain, menu_vobs, title_vobs, Libdvdread, run_vm, update, minus_one,
}
use libdvdnav.Player.Time.{dvdnav_convert_time, cells_time}
use libdvdnav.Player.Events.{
  CellChange, Reply, vts_change, cell_change, spu_clut_change, spu_stream_change,
  audio_stream_change, ok, err, start_vobu,
}

-- The file for a domain.
unfoldable pub file_of : Domain → (vts_n : ℕ) → ℕ × ReadDomain
file_of first_play vts_n = (0, menu_vobs)
file_of vmgm vts_n = (0, menu_vobs)
file_of vts_menu vts_n = (vts_n, menu_vobs)
file_of vts_title vts_n = (vts_n, title_vobs)

abbrev pub is_open : Option ℕ → Bool
is_open none = false
is_open (some _) = true

unfoldable pub needs_file : Dvdnav → Bool
needs_file this =
    not (is_open this.file)
    || this.position_current.vts != this.position_next.vts
    || not (same_domain this.position_current.domain this.position_next.domain)

-- The file of the next position is opened.
unfoldable pub reopened : Libdvdread → Dvdnav → Dvdnav
unfolding file_of dvdnav_read_cache_clear
reopened lib this =
    let (vts_n, domain) = file_of this.position_next.domain this.position_next.vts in
    let s : Store Bytes = this.store in
    record this {
      file = lib.dvd_open_file vts_n domain;
      position_current = record this.position_current {
        vts = this.position_next.vts;
        domain = this.position_next.domain;
      };
      store = record s { cache = dvdnav_read_cache_clear s.cache };
    }

-- The file is open: the cell and the streams are to be told again.
abbrev pub after_vts_change : Dvdnav → Dvdnav
after_vts_change this = record this {
  spu_clut_changed = true;
  position_current = record this.position_current {
    cell = minus_one;
    spu_channel = minus_one;
    audio_channel = minus_one;
  };
}

unfoldable pub tell_file : Libdvdread → (buf : ℕ) → P Reply
unfolding ◌>>=◌ update reopened
tell_file lib buf = do
  this ← get
  update (reopened lib)
  now ← get
  when is_open now.file
      then (do
        update after_vts_change
        pure (
            ok
              (vts_change this.position_current.vts this.position_current.domain
                this.position_next.vts this.position_next.domain)
              buf))
      else pure err

unfoldable pub on_file : Libdvdread → (buf : ℕ) → P Reply → P Reply
unfolding ◌>>=◌ needs_file tell_file
on_file lib buf rest = do this ← get; when needs_file this then tell_file lib buf else rest

unfoldable pub cell_changed : Dvdnav → Bool
cell_changed this =
    this.position_current.cell != this.position_next.cell
    || this.position_current.cell_restart != this.position_next.cell_restart
    || this.position_current.cell_start != this.position_next.cell_start

-- The number of the cells of the current program that begins with cell `first`.
unfoldable pub program_cells : State → Pgc → (first : ℕ) → V ℕ
unfolding ◌>>=◌
program_cells s pgc first =
    when ltb s.pg_n (length pgc.program_map)
    then (do next ← element (entry pgc.program_map (suc s.pg_n)); pure (next - first))
    else pure (suc (length pgc.cell_playback) - first)

unfoldable pub cell_event : V CellChange
unfolding ◌>>=◌ get_state current_pgc cells_time program_cells dvdnav_convert_time
cell_event = do
  s ← get_state
  pgc ← current_pgc
  cell ← element (entry pgc.cell_playback s.cell_n)
  first ← element (entry pgc.program_map s.pg_n)
  count ← program_cells s pgc first
  pg_length ← cells_time first count pgc.cell_playback
  cell_start ← cells_time 1 (s.cell_n - 1) pgc.cell_playback
  pg_start ← cells_time 1 (first - 1) pgc.cell_playback
  pure (record {
    cell_n = s.cell_n;
    pg_n = s.pg_n;
    cell_length = dvdnav_convert_time cell.playback_time;
    pg_length = pg_length;
    pgc_length = dvdnav_convert_time pgc.playback_time;
    cell_start = cell_start;
    pg_start = pg_start;
  })

abbrev pub after_cell_change : Dvdnav → Dvdnav
after_cell_change this = record this {
  cur_cell_time = 0;
  position_current = record this.position_current {
    cell = this.position_next.cell;
    cell_restart = this.position_next.cell_restart;
    cell_start = this.position_next.cell_start;
    block = this.position_next.block;
    spu_channel = minus_one;
    audio_channel = minus_one;
  };
  vobu = start_vobu this.position_next;
  spu_clut_changed = true;
}

unfoldable pub tell_cell : (buf : ℕ) → P Reply
unfolding ◌>>=◌ update run_vm cell_event
tell_cell buf = do
  change ← run_vm cell_event
  update after_cell_change
  pure (ok (cell_change change) buf)

unfoldable pub on_cell : (buf : ℕ) → P Reply → P Reply
unfolding ◌>>=◌ cell_changed tell_cell
on_cell buf rest = do this ← get; when cell_changed this then tell_cell buf else rest

abbrev pub after_clut_change : Dvdnav → Dvdnav
after_clut_change this = record this { spu_clut_changed = false }

unfoldable pub tell_clut : (buf : ℕ) → P Reply
unfolding ◌>>=◌ update run_vm
tell_clut buf = do
  pgc ← run_vm current_pgc
  update after_clut_change
  pure (ok (spu_clut_change pgc.palette) buf)

unfoldable pub on_clut : (buf : ℕ) → P Reply → P Reply
unfolding ◌>>=◌ tell_clut
on_clut buf rest = do this ← get; when this.spu_clut_changed then tell_clut buf else rest

abbrev pub after_spu_change : Dvdnav → Dvdnav
after_spu_change this = record this {
  position_current = record this.position_current { spu_channel = this.position_next.spu_channel };
}

unfoldable pub tell_spu : (buf : ℕ) → P Reply
unfolding ◌>>=◌ update run_vm
tell_spu buf = do
  wide ← run_vm (vm_get_subp_active_stream 0)
  letterbox ← run_vm (vm_get_subp_active_stream 1)
  pan_scan ← run_vm (vm_get_subp_active_stream 2)
  update after_spu_change
  pure (ok (spu_stream_change wide letterbox pan_scan) buf)

unfoldable pub on_spu : (buf : ℕ) → P Reply → P Reply
unfolding ◌>>=◌ tell_spu
on_spu buf rest = do
  this ← get
  when this.position_current.spu_channel != this.position_next.spu_channel
      then tell_spu buf
      else rest

abbrev pub after_audio_change : Dvdnav → Dvdnav
after_audio_change this = record this {
  position_current = record this.position_current {
    audio_channel = this.position_next.audio_channel;
  };
}

unfoldable pub tell_audio : (buf : ℕ) → P Reply
unfolding ◌>>=◌ update run_vm
tell_audio buf = do
  physical ← run_vm vm_get_audio_active_stream
  this ← get
  update after_audio_change
  pure (ok (audio_stream_change physical this.position_next.audio_channel) buf)

unfoldable pub on_audio : (buf : ℕ) → P Reply → P Reply
unfolding ◌>>=◌ tell_audio
on_audio buf rest = do
  this ← get
  when this.position_current.audio_channel != this.position_next.audio_channel
      then tell_audio buf
      else rest
