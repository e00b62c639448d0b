-- ===== src/Player/Frame.antt =====
-- The parts of dvdnav.c that leave the positions, the file and the palette flag of the player alone.
use libdvdnav.Prelude.{Bool, true, false, ℕ, ◌≡◌, refl, ◌∙◌, Option, none, some}
use libdvdnav.Prelude.Program.{
  Outcome, value, aborted, fault, unfinished, pure, get, element, when◌then◌else◌, ◌>>=◌, then_do,
}
use libdvdnav.Vm.State.{V, Vm}
use libdvdnav.ReadCache.State.{Store, ReadCache}
use libdvdnav.Player.State.{
  Pci, Dsi, Vobu, Bytes, Dvdnav, P, Libdvdread, run_vm, run_cache, update, with_vm, with_store,
}
use libdvdnav.Player.Packet.{
  word, skip_pack, skip_system, demux_error, read_pci, read_dsi, decode_stream,
  dvdnav_decode_packet,
}
use libdvdnav.Player.Vobu.{angle_vobu, dvdnav_get_vobu}
use libdvdnav.Player.Events.{step_over, read_sector, decode_at, skip_unit, seek_angle}

-- The two players show the same.
abbrev pub Alike : Dvdnav → Dvdnav → Type 0
Alike this now =
    (now.position_current ≡ this.position_current)
    × (now.position_next ≡ this.position_next)
    × (now.file ≡ this.file)
    × (now.spu_clut_changed ≡ this.spu_clut_changed)

module _ {A : Type 0} where
  unfoldable pub Stays : Outcome Dvdnav A → Dvdnav → Type 0
  Stays (value a now) this = Alike this now
  Stays aborted this = Unit
  Stays fault this = Unit
  Stays unfinished this = Unit

  -- Every run of the action leaves them alone.
  unfoldable pub Framed : P A → Type 0
  Framed m = (this : Dvdnav) → Stays (m this) this

  pub Framed-pure : (a : A) → Framed (pure a)
  unfolding Framed Stays pure
  Framed-pure a this = (refl, refl, refl, refl)

  pub Framed-element : (o : Option A) → Framed (element o)
  unfolding Framed Stays element
  Framed-element none this = tt
  Framed-element (some a) this = (refl, refl, refl, refl)

  pub Framed-when : (b : Bool) (m n : P A) → Framed m → Framed n → Framed (when b then m else n)
  unfolding Framed when◌then◌else◌
  Framed-when true m n hm hn = hm
  Framed-when false m n hm hn = hn

  pub Framed-run_vm : (m : V A) → Framed (run_vm m)
  unfolding Framed Stays run_vm
  Framed-run_vm m this = go (m this.vm)
    where
      go : (o : Outcome Vm A) → Stays (with_vm this o) this
      go (value a vm) = (refl, refl, refl, refl)
      go aborted = tt
      go fault = tt
      go unfinished = tt

  pub Framed-run_cache : (m : ReadCache Bytes A) → Framed (run_cache m)
  unfolding Framed Stays run_cache
  Framed-run_cache m this = go (m this.store)
    where
      go : (o : Outcome (Store Bytes) A) → Stays (with_store this o) this
      go (value a s) = (refl, refl, refl, refl)
      go aborted = tt
      go fault = tt
      go unfinished = tt

pub Framed-get : Framed get
unfolding Framed Stays get
Framed-get this = (refl, refl, refl, refl)

pub Framed-update :
    (f : Dvdnav → Dvdnav) → ((this : Dvdnav) → Alike this (f this)) → Framed (update f)
unfolding Framed Stays update
Framed-update f h this = h this

Stays-trans :
    {A : Type 0} (o : Outcome Dvdnav A) (this now : Dvdnav)
    → Alike this now
    → Stays o now
    → Stays o this
unfolding Stays
Stays-trans (value a last) this now h k = (k.0 ∙ h.0, k.1 ∙ h.1, k.2 ∙ h.2, k.3 ∙ h.3)
Stays-trans aborted this now h k = tt
Stays-trans fault this now h k = tt
Stays-trans unfinished this now h k = tt

pub Framed-bind :
    {A B : Type 0} (m : P A) (k : A → P B) → Framed m → ((a : A) → Framed (k a)) → Framed (m >>= k)
unfolding Framed Stays ◌>>=◌
Framed-bind m k hm hk this = go (m this) (hm this)
  where
    go : (o : Outcome Dvdnav _) → Stays o this → Stays (then_do o k) this
    go (value a now) h = Stays-trans (k a now) this now h (hk a now)
    go aborted h = tt
    go fault h = tt
    go unfinished h = tt

pub ruleset framed = (
  Framed-pure, Framed-element, Framed-when, Framed-run_vm, Framed-run_cache, Framed-get,
  Framed-bind,
)

word-Framed : (p : Bytes) (i : ℕ) → Framed (word p i)
unfolding word
word-Framed p i = search framed

skip_pack-Framed : (p : Bytes) → Framed (skip_pack p)
unfolding skip_pack
skip_pack-Framed p = search framed depth 12

skip_system-Framed : (p : Bytes) → Framed (skip_system p)
unfolding skip_system
skip_system-Framed p = search (framed, word-Framed) depth 12

demux_error-Framed : (p : Bytes) → Framed (demux_error p)
unfolding demux_error
demux_error-Framed p = search framed depth 12

module _ (lib : Libdvdread) where
  read_pci-Framed : (p : Bytes) → Framed (read_pci lib p)
  unfolding read_pci
  read_pci-Framed p =
      Framed-update (λ this. record this { pci = lib.nav_read_pci p })
        (λ this. (refl, refl, refl, refl))

  read_dsi-Framed : (p : Bytes) → Framed (read_dsi lib p)
  unfolding read_dsi
  read_dsi-Framed p =
      Framed-update (λ this. record this { dsi = lib.nav_read_dsi p })
        (λ this. (refl, refl, refl, refl))

  decode_stream-Framed : (p : Bytes) (length : ℕ) → Framed (decode_stream lib p length)
  unfolding decode_stream
  decode_stream-Framed p length = search (framed, read_pci-Framed, read_dsi-Framed) depth 12

  dvdnav_decode_packet-Framed : (block : Bytes) → Framed (dvdnav_decode_packet lib block)
  unfolding dvdnav_decode_packet
  dvdnav_decode_packet-Framed block =
      search
        (
          framed, word-Framed, skip_pack-Framed, skip_system-Framed, demux_error-Framed,
          decode_stream-Framed,
        )
        depth 12

angle_vobu-Framed :
    (angle : ℕ) (pci : Pci) (dsi : Dsi) (vobu : Vobu) → Framed (angle_vobu angle pci dsi vobu)
unfolding angle_vobu
angle_vobu-Framed angle pci dsi vobu = search framed

set_vobu-Framed : (vobu : Vobu) → Framed (update (λ now. record now { vobu = vobu }))
set_vobu-Framed vobu =
    Framed-update (λ now. record now { vobu = vobu }) (λ this. (refl, refl, refl, refl))

dvdnav_get_vobu-Framed : Framed dvdnav_get_vobu
unfolding dvdnav_get_vobu
dvdnav_get_vobu-Framed = search (framed, angle_vobu-Framed, set_vobu-Framed) depth 12

step_over-Framed : Framed (update (λ this. record this { vobu = step_over this.vobu }))
step_over-Framed =
    Framed-update (λ this. record this { vobu = step_over this.vobu })
      (λ this. (refl, refl, refl, refl))

module _ (lib : Libdvdread) where
  read_sector-Framed : (sector buf : ℕ) → Framed (read_sector lib sector buf)
  unfolding read_sector
  read_sector-Framed sector buf = search framed

  decode_at-Framed : (at : ℕ) → Framed (decode_at lib at)
  unfolding decode_at
  decode_at-Framed at = search (framed, dvdnav_decode_packet-Framed lib) depth 12

  skip_unit-Framed : (at : Option ℕ) → Framed (skip_unit lib at)
  unfolding skip_unit
  skip_unit-Framed none = search framed
  skip_unit-Framed (some at) =
      search (framed, decode_at-Framed, dvdnav_get_vobu-Framed, step_over-Framed) depth 12

  pub seek_angle-Framed : (buf : ℕ) → Framed (seek_angle lib buf)
  unfolding seek_angle
  seek_angle-Framed buf = search (framed, read_sector-Framed, skip_unit-Framed) depth 12
