-- ===== src/Player/Events.antt =====
-- The events of dvdnav_get_next_cache_block in dvdnav.c, and the changes that are told one by one.
use libdvdnav.Prelude.{
  Bool, true, false, if◌then◌else◌, ◌!=◌, ltb, ℕ, ◌+◌, Option, none, some, List, u32, sub32,
}
use libdvdnav.Prelude.Int.{ℤ, pos, int_ltb, int32}
use libdvdnav.Prelude.Program.{pure, get, when◌then◌else◌, ◌>>=◌, ◌>>◌}
use libdvdnav.Vm.State.{V, Domain, get_state, put_state}
use libdvdnav.Vm.Position.{Position}
use libdvdnav.Vm.Streams.{vm_get_angle_info}
use libdvdnav.ReadCache.Read.{dvdnav_read_cache_block}
use libdvdnav.Player.State.{
  Dvdnav, Vobu, P, Libdvdread, run_vm, run_cache, update, sri_end_of_cell, hop_seek,
}
use libdvdnav.Player.Packet.{dvdnav_decode_packet}
use libdvdnav.Player.Vobu.{dvdnav_get_vobu}

-- `dvdnav_cell_change_event_t`.
pub record CellChange : Type 0 where
  pub cell_n : ℕ
  pub pg_n : ℕ
  pub cell_length : ℕ
  pub pg_length : ℕ
  pub pgc_length : ℕ
  pub cell_start : ℕ
  pub pg_start : ℕ

-- The events with what their structures are given.
pub data Event : Type 0 where
  block_ok nop wait stop hop_channel_event nav_packet : Event
  still_frame : (length : ℕ) → Event
  spu_stream_change : (physical_wide physical_letterbox physical_pan_scan : ℤ) → Event
  audio_stream_change : (physical : ℤ) (logical : ℕ) → Event
  vts_change : (old_vts_n : ℕ) (old_domain : Domain) (new_vts_n : ℕ) (new_domain : Domain) → Event
  cell_change : CellChange → Event
  highlight : (display button_n : ℕ) → Event
  spu_clut_change : (palette : List ℕ) → Event

-- The status with the event and `*buf`.
pub data Reply : Type 0 where
  ok : Event → (buf : ℕ) → Reply
  err : Reply

-- `*len`.
unfoldable pub event_len : Event → ℕ
event_len block_ok = 2048
event_len nop = 0
event_len wait = 0
event_len stop = 0
event_len hop_channel_event = 0
event_len nav_packet = 2048
event_len (still_frame _) = 4
event_len (spu_stream_change _ _ _) = 16
event_len (audio_stream_change _ _) = 8
event_len (vts_change _ _ _ _) = 16
event_len (cell_change _) = 48
event_len (highlight _ _) = 24
event_len (spu_clut_change _) = 64

-- The address of a block that was read, `none` for an error.
unfoldable pub read_result : ℤ × ℕ → Option ℕ
read_result (result, buf) = if int_ltb (pos 0) result then some buf else none

abbrev pub start_vobu : Position → Vobu
start_vobu next = record {
  vobu_start = u32 (next.cell_start + next.block);
  vobu_next = 0;
  vobu_length = 0;
  block_n = 0;
}

abbrev pub after_hop : Dvdnav → Dvdnav
after_hop this = record this {
  position_current = record this.position_current { hop_channel = this.position_next.hop_channel };
  vobu = start_vobu this.position_next;
  sync_wait = false;
}

unfoldable pub set_vobu_block : (vobu_start cell_start : ℕ) → V (Unit {0})
unfolding ◌>>=◌ get_state put_state
set_vobu_block vobu_start cell_start = do
  s ← get_state
  put_state (record s { block_n = sub32 vobu_start cell_start })

unfoldable pub step_over : Vobu → Vobu
step_over vobu =
    if vobu.vobu_next != sri_end_of_cell
    then record vobu { vobu_start = u32 (vobu.vobu_start + vobu.vobu_next); vobu_next = 0 }
    else vobu

module _ (lib : Libdvdread) where
  unfoldable pub read_sector : (sector buf : ℕ) → P (Option ℕ)
  unfolding ◌>>=◌ run_cache read_result
  read_sector sector buf = do
    this ← get
    result ←
        run_cache
          (dvdnav_read_cache_block (lib.dvd_read_blocks this.file) this.use_read_ahead sector 1 buf)
    pure (read_result result)

  -- The block at an address is decoded.
  unfoldable pub decode_at : ℕ → P Bool
  unfolding ◌>>=◌
  decode_at at = do this ← get; dvdnav_decode_packet lib (this.store.memory at)

  -- After a seek between angles the first unit is left out.
  unfoldable pub skip_unit : Option ℕ → P Bool
  unfolding ◌>>=◌ decode_at update run_vm
  skip_unit none = pure false
  skip_unit (some at) = do
    nav ← decode_at at
    when nav
        then (do
          dvdnav_get_vobu
          update (λ this. record this { vobu = step_over this.vobu })
          this ← get
          run_vm (set_vobu_block this.vobu.vobu_start this.position_next.cell_start)
          pure true)
        else pure false

  unfoldable pub seek_angle : (buf : ℕ) → P Bool
  unfolding ◌>>=◌ read_sector run_vm
  seek_angle buf = do
    this ← get
    when int_ltb (int32 (sub32 this.position_next.hop_channel this.position_current.hop_channel))
          (pos hop_seek)
        then pure true
        else (do
          (current, num_angles) ← run_vm vm_get_angle_info
          when ltb 1 num_angles
              then read_sector (u32 (this.position_next.cell_start + this.position_next.block)) buf
                >>= skip_unit
              else pure true)

  unfoldable pub tell_hop : (buf : ℕ) → P Reply
  unfolding ◌>>=◌ update seek_angle
  tell_hop buf = do
    found ← seek_angle buf
    when found then (do update after_hop; pure (ok hop_channel_event buf)) else pure err

  unfoldable pub on_hop : (buf : ℕ) → P Reply → P Reply
  unfolding ◌>>=◌ tell_hop
  on_hop buf rest = do
    this ← get
    when this.position_current.hop_channel != this.position_next.hop_channel
        then tell_hop buf
        else rest

abbrev pub after_highlight : Dvdnav → Dvdnav
after_highlight this = record this {
  position_current = record this.position_current { button = this.position_next.button };
}

unfoldable pub tell_highlight : (buf : ℕ) → P Reply
unfolding ◌>>=◌ update
tell_highlight buf = do
  this ← get
  update after_highlight
  pure (ok (highlight 1 this.position_next.button) buf)

unfoldable pub on_highlight : (buf : ℕ) → P Reply → P Reply
unfolding ◌>>=◌ tell_highlight
on_highlight buf rest = do
  this ← get
  when this.position_current.button != this.position_next.button then tell_highlight buf else rest

unfoldable pub on_wait : (buf : ℕ) → P Reply → P Reply
unfolding ◌>>=◌
on_wait buf rest = do this ← get; when this.sync_wait then pure (ok wait buf) else rest
