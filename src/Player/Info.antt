-- ===== src/Player/Info.antt =====
-- What dvdnav.c tells of the disc and the player, and the change of the angle.
use libdvdnav.Prelude.{
  Bool, true, false, if◌then◌else◌, ◌&&◌, leb, ltb, ℕ, ◌-◌, Option, none, some, u8, bit_or,
}
use libdvdnav.Prelude.Int.{ℤ, pos, negsuc}
use libdvdnav.Prelude.Program.{pure, get, when◌then◌else◌, ◌>>=◌, ◌>>◌}
use libdvdnav.Vm.State.{V, Domain, current_pgc, get_state, put_sprm, agl_reg}
use libdvdnav.Vm.Sets.{same_domain}
use libdvdnav.Vm.Streams.{
  vm_get_angle_info, vm_get_subp_active_stream, vm_get_audio_active_stream, vm_get_audio_stream,
  vm_get_subp_stream, vm_get_video_aspect, vm_get_video_res, vm_get_video_scale_permission,
}
use libdvdnav.Player.State.{Bytes, Pci, Dsi, sri_end_of_cell, Dvdnav, P, run_vm}
use libdvdnav.Vm.Position.{Position}
use libdvdnav.ReadCache.State.{Store, dvdnav_read_cache_clear}

-- The machine runs; if not, the call fails. `none` is the -1 of the code.
unfoldable pub if_started : {A : Type 0} → P (Option A) → P (Option A)
unfolding ◌>>=◌
if_started m = do this ← get; when this.started then m else pure none

-- The machine has a program chain, too.
unfoldable pub if_playing : {A : Type 0} → P (Option A) → P (Option A)
unfolding ◌>>=◌ if_started run_vm get_state
if_playing m = if_started (do s ← run_vm get_state; elim s.pgc [ none ↦ pure none | some _ ↦ m ])

unfoldable answer : {A : Type 0} → V A → P (Option A)
unfolding ◌>>=◌ run_vm
answer m = do a ← run_vm m; pure (some a)

-- The casts of the code leave the picture's aspect and permission, which have two bits, as they are.
unfoldable pub dvdnav_get_video_aspect : P (Option ℕ)
unfolding if_started answer
dvdnav_get_video_aspect = if_started (answer vm_get_video_aspect)

unfoldable pub dvdnav_get_video_resolution : (width : ℕ) → P (Option (ℕ × ℕ))
unfolding if_started answer
dvdnav_get_video_resolution width = if_started (answer (vm_get_video_res width))

unfoldable pub dvdnav_get_video_scale_permission : P (Option ℕ)
unfolding if_started answer
dvdnav_get_video_scale_permission = if_started (answer vm_get_video_scale_permission)

-- A stream is at most 127, so that the cast to `int8_t` does not change it; bit 7 that hides one makes
-- it negative there.
unfoldable pub dvdnav_get_audio_logical_stream : (audio_num : ℕ) → P (Option ℤ)
unfolding if_playing answer
dvdnav_get_audio_logical_stream audio_num = if_playing (answer (vm_get_audio_stream audio_num))

unfoldable pub dvdnav_get_spu_logical_stream : (subp_num : ℕ) → P (Option ℤ)
unfolding if_playing answer
dvdnav_get_spu_logical_stream subp_num = if_playing (answer (vm_get_subp_stream subp_num 0))

unfoldable pub dvdnav_get_active_audio_stream : P (Option ℤ)
unfolding if_playing answer
dvdnav_get_active_audio_stream = if_playing (answer vm_get_audio_active_stream)

-- The cast to `int8_t`.
unfoldable pub int8 : ℤ → ℤ
int8 (pos n) = if ltb (u8 n) 0x80 then pos (u8 n) else negsuc (0xff - u8 n)
int8 (negsuc n) = negsuc n

unfoldable pub dvdnav_get_active_spu_stream : P (Option ℤ)
unfolding ◌>>=◌ if_playing answer int8
dvdnav_get_active_spu_stream =
    if_playing (do stream ← run_vm (vm_get_subp_active_stream 0); pure (some (int8 stream)))

unfoldable pub dvdnav_is_domain : Domain → P (Option Bool)
unfolding ◌>>=◌ if_started run_vm get_state
dvdnav_is_domain domain =
    if_started (do s ← run_vm get_state; pure (some (same_domain s.domain domain)))

-- `true` is DVDNAV_STATUS_OK.
unfoldable pub dvdnav_angle_change : (angle : ℤ) → P Bool
unfolding ◌>>=◌ run_vm vm_get_angle_info put_sprm
dvdnav_angle_change (negsuc n) = do (current, num) ← run_vm vm_get_angle_info; pure false
dvdnav_angle_change (pos angle) = do
  (current, num) ← run_vm vm_get_angle_info
  when ltb 0 angle && leb angle num
      then (do run_vm (put_sprm agl_reg angle); pure true)
      else pure false

unfoldable pub dvdnav_get_next_still_flag : P ℕ
unfolding ◌>>=◌
dvdnav_get_next_still_flag = do this ← get; pure this.position_next.still

-- The operations that the unit or the program chain forbids, 32 bits.
unfoldable pub dvdnav_get_restrictions : P ℕ
unfolding ◌>>=◌ run_vm get_state current_pgc
dvdnav_get_restrictions = do
  this ← get
  when this.started
      then (do
        s ← run_vm get_state
        elim s.pgc [
          | none ↦ pure this.pci.vobu_uop_ctl
          | some _ ↦ do
            pgc ← run_vm current_pgc
            pure (bit_or this.pci.vobu_uop_ctl pgc.prohibited_ops)
        ])
      else pure 0

unfoldable pub dvdnav_get_angle_info : P (ℕ × ℕ)
unfolding run_vm vm_get_angle_info
dvdnav_get_angle_info = run_vm vm_get_angle_info

-- All but the file that is open, the machine and the choice of read-ahead; `empty` and the like are
-- structures of zeros. The file is closed.
unfoldable pub dvdnav_clear :
    (empty : Position) (empty_pci : Pci) (empty_dsi : Dsi) → Dvdnav → Dvdnav
unfolding dvdnav_read_cache_clear
dvdnav_clear empty empty_pci empty_dsi this =
    let s : Store Bytes = this.store in
    record this {
      file = none;
      position_current = empty;
      pci = empty_pci;
      dsi = empty_dsi;
      last_cmd_nav_lbn = sri_end_of_cell;
      skip_still = false;
      sync_wait = false;
      sync_wait_skip = false;
      spu_clut_changed = false;
      started = false;
      cur_cell_time = 0;
      store = record s { cache = dvdnav_read_cache_clear s.cache };
    }
