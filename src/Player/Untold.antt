-- ===== src/Player/Untold.antt =====
-- The changes that dvdnav_get_next_cache_block of dvdnav.c has still to tell.
use libdvdnav.Prelude.{
  Bool, true, false, if◌then◌else◌, ◌!=◌, ℕ, ◌+◌, ◌<◌, ◌≤◌, ◌≡◌, refl, ap, arith,
}
use libdvdnav.Prelude.Program.{when◌then◌else◌}
use libdvdnav.Vm.State.{Domain, first_play, vts_title, vmgm, vts_menu}
use libdvdnav.Vm.Sets.{same_domain}
use libdvdnav.Player.State.{Dvdnav, Libdvdread, minus_one}
use libdvdnav.Player.Events.{
  Reply, ok, hop_channel_event, spu_stream_change, audio_stream_change, vts_change, cell_change,
  highlight, spu_clut_change, after_hop, after_highlight,
}
use libdvdnav.Player.Frame.{Alike}
use libdvdnav.Player.Changes.{
  is_open, needs_file, reopened, cell_changed, after_vts_change, after_cell_change,
  after_spu_change, after_audio_change,
}

-- The events that tell a change.
unfoldable pub is_change : Reply → Bool
is_change (ok hop_channel_event _) = true
is_change (ok (highlight _ _) _) = true
is_change (ok (vts_change _ _ _ _) _) = true
is_change (ok (cell_change _) _) = true
is_change (ok (spu_clut_change _) _) = true
is_change (ok (spu_stream_change _ _ _) _) = true
is_change (ok (audio_stream_change _ _) _) = true
is_change _ = false

abbrev pub weight : Bool → ℕ → ℕ
weight b w = if b then w else 0

-- What is still to be told, as a binary number. A title set brings a cell, a cell the streams.
unfoldable pub untold : Dvdnav → ℕ
untold this =
    weight (this.position_current.hop_channel != this.position_next.hop_channel) 64
    + weight (this.position_current.button != this.position_next.button) 32
    + weight (needs_file this) 16
    + weight (cell_changed this) 8
    + weight this.spu_clut_changed 4
    + weight (this.position_current.spu_channel != this.position_next.spu_channel) 2
    + weight (this.position_current.audio_channel != this.position_next.audio_channel) 1

pub ne_self : (n : ℕ) → (n != n) ≡ false
ne_self n = ground arith

-- The weight of a change that there is, and of one that there is not.
pub has_weight : (b : Bool) (w : ℕ) → b ≡ true → weight b w ≡ w
has_weight b w e = rw (e) refl

pub no_weight : (n w : ℕ) → weight (n != n) w ≡ 0
no_weight n w = rw (ne_self n) refl

pub weight-le : (b : Bool) (w : ℕ) → weight b w ≤ w
weight-le true w = omega arith
weight-le false w = omega arith

-- The handlers, as far as they change what is told.
pub hop_less :
    (this : Dvdnav)
    → (this.position_current.hop_channel != this.position_next.hop_channel) ≡ true
    → untold (after_hop this) < untold this
unfolding untold needs_file cell_changed
hop_less this e = omega (arith, has_weight _ 64 e, no_weight this.position_next.hop_channel 64)

pub highlight_less :
    (this : Dvdnav)
    → (this.position_current.button != this.position_next.button) ≡ true
    → untold (after_highlight this) < untold this
unfolding untold needs_file cell_changed
highlight_less this e = omega (arith, has_weight _ 32 e, no_weight this.position_next.button 32)

pub same_domain_self : (d : Domain) → same_domain d d ≡ true
same_domain_self first_play = refl
same_domain_self vts_title = refl
same_domain_self vmgm = refl
same_domain_self vts_menu = refl

pub file_less :
    (lib : Libdvdread) (this : Dvdnav)
    → needs_file this ≡ true
    → is_open (reopened lib this).file ≡ true
    → untold (after_vts_change (reopened lib this)) < untold this
unfolding untold cell_changed needs_file reopened
file_less lib this e opened = omega (
  arith,
  has_weight _ 16 e,
  ap (λ b. weight b 16) file_told,
  weight-le (cell_changed (after_vts_change (reopened lib this))) 8,
  weight-le (minus_one != this.position_next.spu_channel) 2,
  weight-le (minus_one != this.position_next.audio_channel) 1,
)
  where
    file_told : needs_file (after_vts_change (reopened lib this)) ≡ false
    file_told =
        rw (opened, ne_self this.position_next.vts, same_domain_self this.position_next.domain) refl

pub cell_less :
    (this : Dvdnav) → cell_changed this ≡ true → untold (after_cell_change this) < untold this
unfolding untold cell_changed needs_file
cell_less this e = omega (
  arith,
  has_weight _ 8 e,
  cell_told,
  weight-le (minus_one != this.position_next.spu_channel) 2,
  weight-le (minus_one != this.position_next.audio_channel) 1,
)
  where
    cell_told : weight (cell_changed (after_cell_change this)) 8 ≡ 0
    cell_told =
        rw
          (
            ne_self this.position_next.cell,
            ne_self this.position_next.cell_restart,
            ne_self this.position_next.cell_start,
          )
          refl

pub clut_less :
    (this : Dvdnav)
    → this.spu_clut_changed ≡ true
    → untold (record this { spu_clut_changed = false }) < untold this
unfolding untold cell_changed needs_file
clut_less this e = omega (arith, has_weight _ 4 e)

pub spu_less :
    (this : Dvdnav)
    → (this.position_current.spu_channel != this.position_next.spu_channel) ≡ true
    → untold (after_spu_change this) < untold this
unfolding untold needs_file cell_changed
spu_less this e = omega (arith, has_weight _ 2 e, no_weight this.position_next.spu_channel 2)

pub audio_less :
    (this : Dvdnav)
    → (this.position_current.audio_channel != this.position_next.audio_channel) ≡ true
    → untold (after_audio_change this) < untold this
unfolding untold needs_file cell_changed
audio_less this e = omega (arith, has_weight _ 1 e, no_weight this.position_next.audio_channel 1)

pub untold-Alike : (this now : Dvdnav) → Alike this now → untold now ≡ untold this
unfolding untold needs_file cell_changed
untold-Alike this now alike = rw (alike.0, alike.1, alike.2, alike.3) refl
