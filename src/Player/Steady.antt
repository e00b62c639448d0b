-- ===== src/Player/Steady.antt =====
-- dvdnav_get_next_cache_block of dvdnav.c when nothing has changed.
use libdvdnav.Prelude.{Bool, true, false, if◌then◌else◌, ◌!=◌, ℕ, ◌<◌, ◌≡◌, refl, ◌∙◌, arith}
use libdvdnav.Prelude.Program.{value, pure, when◌then◌else◌, ◌>>=◌}
use libdvdnav.Vm.State.{Vm}
use libdvdnav.Vm.Position.{Position, vm_position_get}
use libdvdnav.Player.State.{Dvdnav, P, Libdvdread, run_vm, update}
use libdvdnav.Player.Events.{
  Reply, ok, wait, still_frame, on_hop, on_highlight, on_wait, tell_hop, tell_highlight,
}
use libdvdnav.Player.Changes.{
  tell_file, tell_cell, tell_clut, tell_spu, tell_audio, on_file, on_cell, on_clut, on_spu,
  on_audio, needs_file, cell_changed,
}
use libdvdnav.Player.Next.{
  on_still, read_next, next_event, start_machine, dvdnav_get_next_cache_block,
}
use libdvdnav.Player.Untold.{untold, weight}

-- There is no change to tell, no still, and nothing to wait for.
pub record Steady (this : Dvdnav) : Type 0 where
  pub told : untold this ≡ 0
  pub awaits : this.sync_wait ≡ false
  pub still : (this.position_current.still != 0) ≡ false

when_false :
    (b : Bool) (m n : P Reply) (this : Dvdnav) → b ≡ false → (when b then m else n) this ≡ n this
unfolding when◌then◌else◌
when_false false m n this e = refl
when_false true m n this e = absurd (cc e)

weightless : (b : Bool) (w : ℕ) → 0 < w → weight b w ≡ 0 → b ≡ false
weightless false w h e = refl
weightless true w h e = absurd (omega arith)

module _ (lib : Libdvdread) (left rounds base buf : ℕ) where
  pub next_event-Steady :
      (this : Dvdnav)
      → Steady this
      → next_event lib left rounds base buf this ≡ read_next lib left rounds base buf this
  unfolding next_event on_hop on_highlight on_wait on_file on_cell on_clut on_spu on_audio on_still
      ◌>>=◌ untold
  next_event-Steady this h =
      let hop : (this.position_current.hop_channel != this.position_next.hop_channel) ≡ false =
        weightless _ 64 (omega arith) (omega (arith, h.told)) in
      let button : (this.position_current.button != this.position_next.button) ≡ false =
        weightless _ 32 (omega arith) (omega (arith, h.told)) in
      let file : needs_file this ≡ false = weightless _ 16 (omega arith) (omega (arith, h.told)) in
      let cell : cell_changed this ≡ false = weightless _ 8 (omega arith) (omega (arith, h.told)) in
      let clut : this.spu_clut_changed ≡ false =
        weightless _ 4 (omega arith) (omega (arith, h.told)) in
      let spu : (this.position_current.spu_channel != this.position_next.spu_channel) ≡ false =
        weightless _ 2 (omega arith) (omega (arith, h.told)) in
      let audio : (this.position_current.audio_channel != this.position_next.audio_channel)
          ≡ false =
        weightless _ 1 (omega arith) (omega (arith, h.told)) in
      when_false _ (tell_hop lib buf) _ this hop
      ∙ when_false _ (tell_highlight buf) _ this button
      ∙ when_false this.sync_wait (pure (ok wait buf)) _ this h.awaits
      ∙ when_false _ (tell_file lib buf) _ this file
      ∙ when_false _ (tell_cell buf) _ this cell
      ∙ when_false _ (tell_clut buf) _ this clut
      ∙ when_false _ (tell_spu buf) _ this spu
      ∙ when_false _ (tell_audio buf) _ this audio
      ∙ when_false (this.position_current.still != 0)
          (pure (ok (still_frame this.position_current.still) buf))
          (read_next lib left rounds base buf) this h.still

  -- A call on a running player.
  pub dvdnav_get_next_cache_block-running :
      (this : Dvdnav) (position : Position) (vm : Vm)
      → this.started ≡ true
      → this.vm.stopped ≡ false
      → vm_position_get this.vm ≡ value position vm
      → dvdnav_get_next_cache_block lib left rounds base buf this
        ≡ next_event lib left rounds base buf
            (record this { position_next = position; started = true; vm = vm })
  unfolding dvdnav_get_next_cache_block start_machine ◌>>=◌ run_vm update next_event on_hop
      on_highlight on_wait on_file on_cell on_clut on_spu on_audio on_still
  dvdnav_get_next_cache_block-running this position vm started runs at =
      simp (started, runs, at) refl
