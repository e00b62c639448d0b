-- ===== src/Player/Blocks.antt =====
-- The blocks of a unit that dvdnav_get_next_cache_block of dvdnav.c gives, from the disc.
use libdvdnav.Prelude.{true, false, ℕ, ◌+◌, ◌^◌, ◌<◌, ◌≡◌, refl, ap, ◌∙◌, arith, u32}
use libdvdnav.Prelude.Program.{value, ◌>>=◌}
use libdvdnav.Vm.State.{Vm}
use libdvdnav.Vm.Position.{Position, vm_position_get}
use libdvdnav.ReadCache.Sound.{Complete, StoreIsSound}
use libdvdnav.ReadCache.Transparent.{dvdnav_read_cache_block_lem}
use libdvdnav.Player.State.{Bytes, Dvdnav, Vobu, P, Libdvdread, run_cache, update}
use libdvdnav.Player.Events.{Reply, ok, block_ok, read_sector, read_result}
use libdvdnav.Player.Changes.{is_open, needs_file, cell_changed}
use libdvdnav.Player.Untold.{untold}
use libdvdnav.Player.Next.{next_block, read_next, vobu_ended, dvdnav_get_next_cache_block}
use libdvdnav.Player.Steady.{Steady, next_event-Steady, dvdnav_get_next_cache_block-running}

-- The unit with one more block read.
abbrev pub next_in_vobu : Vobu → Vobu
next_in_vobu vobu = record vobu { block_n = u32 (vobu.block_n + 1) }

module _ (disc : ℕ → Bytes) (lib : Libdvdread) (left rounds base buf : ℕ) where
  -- A reply with the block of a sector.
  abbrev pub GivesBlock : (result : P Reply) → Dvdnav → (sector : ℕ) → (vobu : Vobu) → Type 0
  GivesBlock result this sector vobu =
      (at : ℕ) × (this' : Dvdnav) × (result this ≡ value (ok block_ok at) this')
      × (this'.store.memory at ≡ disc sector)
      × (this'.vobu ≡ vobu)

  next_block_lem :
      (this : Dvdnav)
      → is_open this.file ≡ true
      → Complete disc (lib.dvd_read_blocks this.file)
      → StoreIsSound disc this.store
      → GivesBlock
          (next_block lib left rounds base buf)
          this
          (u32 (this.vobu.vobu_start + u32 (this.vobu.block_n + 1)))
          (next_in_vobu this.vobu)
  unfolding next_block read_sector read_result run_cache update ◌>>=◌
  next_block_lem this opened complete sound =
      let (at, s', served, holds) =
        dvdnav_read_cache_block_lem disc (lib.dvd_read_blocks this.file) this.use_read_ahead
          (u32 (this.vobu.vobu_start + u32 (this.vobu.block_n + 1))) buf this.store complete
          sound in
      (
        at,
        record this { store = s'; vobu = next_in_vobu this.vobu },
        simp (opened, served) refl,
        holds,
        refl,
      )

  when_started :
      (this : Dvdnav) (position : Position) (vm : Vm)
      → Steady (record this { position_next = position; vm = vm })
      → Steady (record this { position_next = position; started = true; vm = vm })
  unfolding untold needs_file cell_changed
  when_started this position vm h = record { told = h.told; awaits = h.awaits; still = h.still }

  in_middle :
      (this : Dvdnav)
      → vobu_ended this.vobu ≡ false
      → read_next lib left rounds base buf this ≡ next_block lib left rounds base buf this
  unfolding read_next ◌>>=◌
  in_middle this middle = simp (middle) refl

  -- In the middle of a unit a steady player gives the next block of the disc.
  pub dvdnav_get_next_cache_block_lem :
      (this : Dvdnav) (position : Position) (vm : Vm)
      → this.started ≡ true
      → this.vm.stopped ≡ false
      → vm_position_get this.vm ≡ value position vm
      → Steady (record this { position_next = position; vm = vm })
      → vobu_ended this.vobu ≡ false
      → is_open this.file ≡ true
      → Complete disc (lib.dvd_read_blocks this.file)
      → StoreIsSound disc this.store
      → this.vobu.vobu_start + this.vobu.block_n + 1 < 2 ^ 32
      → GivesBlock
          (dvdnav_get_next_cache_block lib left rounds base buf)
          this
          (this.vobu.vobu_start + this.vobu.block_n + 1)
          (next_in_vobu this.vobu)
  dvdnav_get_next_cache_block_lem this position vm started runs at_position steady middle opened
        complete sound small =
      let now : Dvdnav = record this { position_next = position; started = true; vm = vm } in
      let (at, this', read, holds, after) = next_block_lem now opened complete sound in
      let whole : u32 (this.vobu.vobu_start + u32 (this.vobu.block_n + 1))
          ≡ this.vobu.vobu_start + this.vobu.block_n + 1 =
        omega arith in
      (
        at,
        this',
        dvdnav_get_next_cache_block-running lib left rounds base buf this position vm started runs
              at_position
            ∙ next_event-Steady lib left rounds base buf now (when_started this position vm steady)
            ∙ in_middle now middle
            ∙ read,
        holds ∙ ap disc whole,
        after,
      )
