-- ===== src/Settings.antt =====
-- settings.c: the region, the languages and the flags of the player.
use libdvdnav.Prelude.{Bool, true, false, ◌||◌, ◌==◌, ℕ, bit_and, bit_or, shl}
use libdvdnav.Prelude.Program.{pure, get, when◌then◌else◌, ◌>>=◌, ◌>>◌}
use libdvdnav.Vm.State.{sprm, put_sprm}
use libdvdnav.Player.State.{P, run_vm, update}

unfoldable pub dvdnav_get_region_mask : P ℕ
unfolding run_vm sprm
dvdnav_get_region_mask = run_vm (sprm 20)

unfoldable pub dvdnav_set_region_mask : ℕ → P Bool
unfolding ◌>>=◌ run_vm put_sprm
dvdnav_set_region_mask mask = do run_vm (put_sprm 20 (bit_and mask 0xff)); pure true

unfoldable pub dvdnav_set_readahead_flag : Bool → P Bool
unfolding ◌>>=◌ update
dvdnav_set_readahead_flag flag = do
  update (λ this. record this { use_read_ahead = flag })
  pure true

unfoldable pub dvdnav_get_readahead_flag : P Bool
unfolding ◌>>=◌
dvdnav_get_readahead_flag = do this ← get; pure this.use_read_ahead

-- The two letters of the code as characters from 0 to 127; `false` is DVDNAV_STATUS_ERR.
unfoldable pub set_language_register : (code0 code1 reg : ℕ) → P Bool
unfolding ◌>>=◌ run_vm put_sprm
set_language_register code0 code1 reg =
    when code0 == 0 || code1 == 0
    then pure false
    else (do run_vm (put_sprm reg (bit_or (shl code0 8) code1)); pure true)

unfoldable pub dvdnav_menu_language_select : (code0 code1 : ℕ) → P Bool
unfolding set_language_register
dvdnav_menu_language_select code0 code1 = set_language_register code0 code1 0

unfoldable pub dvdnav_audio_language_select : (code0 code1 : ℕ) → P Bool
unfolding set_language_register
dvdnav_audio_language_select code0 code1 = set_language_register code0 code1 16

unfoldable pub dvdnav_spu_language_select : (code0 code1 : ℕ) → P Bool
unfolding set_language_register
dvdnav_spu_language_select code0 code1 = set_language_register code0 code1 18

unfoldable pub dvdnav_set_pgc_positioning_flag : Bool → P Bool
unfolding ◌>>=◌ update
dvdnav_set_pgc_positioning_flag pgc = do update (λ this. record this { pgc_based = pgc }); pure true

unfoldable pub dvdnav_get_pgc_positioning_flag : P Bool
unfolding ◌>>=◌
dvdnav_get_pgc_positioning_flag = do this ← get; pure this.pgc_based
