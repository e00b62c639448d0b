-- ===== src/Player/Vobu.antt =====
-- dvdnav_get_vobu of dvdnav.c: the unit that a navigation packet describes.
use libdvdnav.Prelude.{Bool, if◌then◌else◌, ◌&&◌, ◌==◌, ◌!=◌, truth, ℕ, bit_and, sub32}
use libdvdnav.Prelude.Program.{pure, get, element, when◌then◌else◌, ◌>>=◌}
use libdvdnav.Vm.Sets.{entry}
use libdvdnav.Vm.Streams.{vm_get_angle_info}
use libdvdnav.Player.State.{Vobu, Pci, Dsi, P, run_vm, update}

-- An offset with its sign in bit 31.
unfoldable pub offset_of : ℕ → ℕ
offset_of next =
    if truth (bit_and next 0x80000000)
    then sub32 0 (bit_and next 0x3fffffff)
    else bit_and next 0x3fffffff

-- The unit before a look at the angles.
unfoldable pub plain_vobu : Dsi → Vobu → Vobu
plain_vobu dsi vobu = record vobu {
  vobu_start = dsi.nv_pck_lbn;
  vobu_length = dsi.vobu_ea;
  vobu_next = bit_and dsi.next_vobu 0x3fffffff;
}

-- The last unit of an interleaved one.
unfoldable pub is_ilvu_last : Dsi → Bool
is_ilvu_last dsi = bit_and dsi.category 0xf000 == 0x5000

-- The angle goes on in another unit without a seam.
unfoldable pub seamless_vobu : (next : ℕ) → Dsi → Vobu → Vobu
unfolding offset_of
seamless_vobu next dsi vobu =
    if next != 0
    then record vobu {
      vobu_length = dsi.ilvu_ea;
      vobu_next =
          if truth (bit_and next 0x80000000) && (next != 0x7fffffff)
          then sub32 0 (bit_and next 0x3fffffff)
          else bit_and next 0x3fffffff;
    }
    else vobu

unfoldable pub unseamless_vobu : (next : ℕ) → Vobu → Vobu
unfolding offset_of
unseamless_vobu next vobu =
    if bit_and next 0x3fffffff != 0 then record vobu { vobu_next = offset_of next } else vobu

unfoldable pub angle_vobu : (angle : ℕ) → Pci → Dsi → Vobu → P Vobu
unfolding ◌>>=◌ seamless_vobu unseamless_vobu
angle_vobu angle pci dsi vobu = do
  next ← element (entry pci.nsml_agl_dsta angle)
  when next != 0
      then pure (unseamless_vobu next vobu)
      else (do address ← element (entry dsi.sml_agli angle); pure (seamless_vobu address dsi vobu))

unfoldable pub dvdnav_get_vobu : P (Unit {0})
unfolding ◌>>=◌ run_vm plain_vobu is_ilvu_last angle_vobu update
dvdnav_get_vobu = do
  this ← get
  let vobu : Vobu = plain_vobu this.dsi this.vobu
  (angle, num_angle) ← run_vm vm_get_angle_info
  vobu ←
      (when (num_angle != 0) && is_ilvu_last this.dsi
        then angle_vobu angle this.pci this.dsi vobu
        else pure vobu)
  update (λ now. record now { vobu = vobu })
