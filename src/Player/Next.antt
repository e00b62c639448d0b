-- ===== src/Player/Next.antt =====
-- dvdnav_get_next_cache_block of dvdnav.c: the next block or event.
use libdvdnav.Prelude.{
  Bool, true, false, if◌then◌else◌, not, ◌&&◌, ◌||◌, ◌==◌, ◌!=◌, ltb, truth, ℕ, ◌+◌, ◌-◌, ◌^◌,
  Option, none, some, [], ◌∷◌, u32,
}
use libdvdnav.Prelude.Int.{pos, int_ltb, int32}
use libdvdnav.Prelude.Program.{pure, get, element, when◌then◌else◌, ◌>>=◌, ◌>>◌}
use libdvdnav.Vm.State.{Domain, first_play, vts_title, vmgm, vts_menu, get_state, sprm, ttn_reg}
use libdvdnav.Vm.Position.{vm_position_get}
use libdvdnav.Vm.Start.{vm_start, vm_stop}
use libdvdnav.Vm.Jumps.{vm_get_next_cell}
use libdvdnav.Remap.{Map, remap_block}
use libdvdnav.ReadCache.State.{Store, write}
use libdvdnav.ReadCache.Release.{dvdnav_free_cache_block}
use libdvdnav.ReadCache.Allocate.{dvdnav_pre_cache_blocks}
use libdvdnav.Player.State.{Bytes, Dvdnav, Vobu, P, Libdvdread, run_vm, update, sri_end_of_cell}
use libdvdnav.Player.Time.{dvdnav_convert_time}
use libdvdnav.Player.Vobu.{dvdnav_get_vobu}
use libdvdnav.Player.Events.{
  Reply, ok, err, nop, stop, still_frame, nav_packet, block_ok, read_sector, decode_at,
  set_vobu_block, on_hop, on_highlight, on_wait,
}
use libdvdnav.Player.Changes.{on_file, on_cell, on_clut, on_spu, on_audio, is_open}

unfoldable pub on_still : (buf : ℕ) → P Reply → P Reply
unfolding ◌>>=◌
on_still buf rest = do
  this ← get
  when this.position_current.still != 0
      then pure (ok (still_frame this.position_current.still) buf)
      else rest

-- `blockN >= vobu_length`.
unfoldable pub vobu_ended : Vobu → Bool
vobu_ended vobu = not (int_ltb (int32 vobu.block_n) (int32 vobu.vobu_length))

-- The player waits for the application before a still or a menu.
abbrev pub await_sync : Dvdnav → Dvdnav
await_sync this =
    let still : ℕ = this.position_next.still in
    record this {
      position_current = record this.position_current { still = still };
      sync_wait =
          if (truth still || truth this.pci.hli_ss) && not this.sync_wait_skip
          then true
          else this.sync_wait;
    }

abbrev pub leave_cell : Dvdnav → Dvdnav
leave_cell this = record this {
  position_current = record this.position_current { still = 0 };
  skip_still = false;
  sync_wait_skip = false;
}

module _ (left rounds : ℕ) where
  unfoldable pub end_of_cell : (buf : ℕ) → P Reply
  unfolding ◌>>=◌ update run_vm
  end_of_cell buf = do
    update await_sync
    this ← get
    (when not (truth this.position_current.still) || this.skip_still
        then (do played ← run_vm (vm_get_next_cell left rounds); update leave_cell)
        else pure tt)
    pure (ok nop buf)

-- The number of a domain.
abbrev pub domain_number : Domain → ℕ
domain_number first_play = 1
domain_number vts_title = 2
domain_number vmgm = 4
domain_number vts_menu = 8

-- An `int32_t` as an `unsigned long`.
abbrev pub to_long : ℕ → ℕ
to_long n = if ltb n (2 ^ 31) then n else n + (2 ^ 64 - 2 ^ 32)

-- The offset of the next unit, through the block map if there is one.
unfoldable pub remapped : Option Map → P (Unit {0})
unfolding ◌>>=◌ run_vm get_state sprm update
remapped none = pure tt
remapped (some map) = do
  this ← get
  s ← run_vm get_state
  ttn ← run_vm (sprm ttn_reg)
  next ← element (
      remap_block map (pos (domain_number s.domain)) (pos ttn) (pos s.pg_n)
        (to_long this.vobu.vobu_start) (to_long this.vobu.vobu_next))
  update (λ now.
      let vobu : Vobu = now.vobu in record now { vobu = record vobu { vobu_next = u32 next } })

-- The cache is told of the unit, and the button filter ends at the packet it was set at.
unfoldable pub expect_vobu : (base : ℕ) → Dvdnav → Dvdnav
unfolding dvdnav_convert_time dvdnav_pre_cache_blocks
expect_vobu base this =
    let s : Store Bytes = this.store in
    let vobu : Vobu = this.vobu in
    record this {
      vobu = record vobu { block_n = 0 };
      store = record s {
        cache =
            dvdnav_pre_cache_blocks this.use_read_ahead base s.cache (u32 (vobu.vobu_start + 1))
              (u32 (vobu.vobu_length + 1));
      };
      last_cmd_nav_lbn =
          if this.last_cmd_nav_lbn == this.pci.nv_pck_lbn
          then sri_end_of_cell
          else this.last_cmd_nav_lbn;
      cur_cell_time = dvdnav_convert_time this.dsi.c_eltm;
    }

module _ (lib : Libdvdread) (left rounds base : ℕ) where
  unfoldable pub nav_block : Option ℕ → P Reply
  unfolding ◌>>=◌ decode_at run_vm set_vobu_block dvdnav_get_vobu update expect_vobu
  nav_block none = pure err
  nav_block (some at) = do
    nav ← decode_at lib at
    when nav
        then (do
          this ← get
          run_vm (set_vobu_block this.vobu.vobu_start this.position_current.cell_start)
          dvdnav_get_vobu
          update (expect_vobu base)
          pure (ok nav_packet at))
        else pure err

  unfoldable pub next_vobu : (buf : ℕ) → P Reply
  unfolding ◌>>=◌ remapped read_sector nav_block
  next_vobu buf = do
    before ← get
    remapped before.map
    this ← get
    read_sector lib (u32 (this.vobu.vobu_start + this.vobu.vobu_next)) buf >>= nav_block

  abbrev pub block_reply : Option ℕ → Reply
  block_reply none = err
  block_reply (some at) = ok block_ok at

  unfoldable pub next_block : (buf : ℕ) → P Reply
  unfolding ◌>>=◌ update read_sector
  next_block buf = do
    before ← get
    when is_open before.file
        then (do
          update (λ now.
              let vobu : Vobu = now.vobu in
              record now { vobu = record vobu { block_n = u32 (vobu.block_n + 1) } })
          this ← get
          at ← read_sector lib (u32 (this.vobu.vobu_start + this.vobu.block_n)) buf
          pure (block_reply at))
        else pure err

  unfoldable pub read_next : (buf : ℕ) → P Reply
  unfolding ◌>>=◌ vobu_ended next_vobu next_block end_of_cell
  read_next buf = do
    this ← get
    when vobu_ended this.vobu
        then (when this.vobu.vobu_next == sri_end_of_cell
            then end_of_cell left rounds buf
            else next_vobu buf)
        else next_block buf

  -- All that follows the look at the next position.
  unfoldable pub next_event : (buf : ℕ) → P Reply
  unfolding on_hop on_highlight on_wait on_file on_cell on_clut on_spu on_audio on_still read_next
  next_event buf = on_hop lib buf (
      on_highlight buf (
        on_wait buf (
          on_file lib buf (
            on_cell buf (on_clut buf (on_spu buf (on_audio buf (on_still buf (read_next buf)))))))))

  unfoldable pub start_machine : P Bool
  unfolding ◌>>=◌ run_vm update
  start_machine = do
    this ← get
    when this.started then pure true else (do
      running ← run_vm (vm_start left rounds)
      when running
          then (do update (λ now. record now { started = true }); pure true)
          else pure false)

  unfoldable pub dvdnav_get_next_cache_block : (buf : ℕ) → P Reply
  unfolding ◌>>=◌ start_machine run_vm update next_event
  dvdnav_get_next_cache_block buf = do
    started ← start_machine
    when started
        then (do
          this ← get
          when this.vm.stopped
              then (do
                run_vm vm_stop
                update (λ now. record now { started = false })
                pure (ok stop buf))
              else (do
                position ← run_vm vm_position_get
                update (λ now. record now { position_next = position })
                next_event buf))
        else pure err

  -- A block of the cache is copied to the buffer of the caller and given back. A cache that is being
  -- freed belongs to a player that was closed.
  unfoldable pub copy_block : (at buf : ℕ) → P (Unit {0})
  unfolding ◌>>=◌ update
  copy_block at buf = do
    this ← get
    let s : Store Bytes = this.store
    cache ← element (dvdnav_free_cache_block s.cache at)
    update (λ now. record now {
      store = record s { cache = cache; memory = write s.memory buf (s.memory at ∷ []) };
    })

  unfoldable pub copy_reply : (buf : ℕ) → Reply → P Reply
  unfolding ◌>>=◌ copy_block
  copy_reply buf err = pure err
  copy_reply buf (ok event at) = do
    when at != buf then copy_block at buf else pure tt
    pure (ok event buf)

  unfoldable pub dvdnav_get_next_block : (buf : ℕ) → P Reply
  unfolding ◌>>=◌ dvdnav_get_next_cache_block copy_reply
  dvdnav_get_next_block buf = dvdnav_get_next_cache_block buf >>= copy_reply buf
