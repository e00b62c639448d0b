-- ===== src/Player/Tests.antt =====
-- Runs of dvdnav.c on a small disc.
use libdvdnav.Prelude.{true, false, ℕ, ◌≡◌, refl, arith, Option, none, some, [], ◌∷◌, replicate}
use libdvdnav.Prelude.Int.{pos, int32}
use libdvdnav.Prelude.Program.{value, ◌>>=◌}
use libdvdnav.Vm.State.{vmgm, sprm, get_state, current_pgc}
use libdvdnav.Vm.Position.{Position, vm_position_get, still_of, hidden_still}
use libdvdnav.Vm.Play.{current_cell}
use libdvdnav.Vm.Sets.{entry}
use libdvdnav.Player.Changes.{needs_file, cell_changed}
use libdvdnav.Vm.Tests.{machine}
use libdvdnav.ReadCache.State.{Chunk, dvdnav_read_cache_new}
use libdvdnav.ReadCache.Memory.{sectors}
use libdvdnav.ReadCache.Sound.{Complete, StoreIsSound}
use libdvdnav.ReadCache.Start.{dvdnav_read_cache_new-StoreIsSound}
use libdvdnav.Player.State.{Bytes, Dvdnav, Pci, Dsi, Libdvdread, sri_end_of_cell}
use libdvdnav.Player.Next.{dvdnav_get_next_cache_block, vobu_ended}
use libdvdnav.Player.Packet.{dvdnav_decode_packet}
use libdvdnav.Player.Time.{dvdnav_convert_time}
use libdvdnav.Player.Untold.{untold}
use libdvdnav.Player.Steady.{Steady}
use libdvdnav.Player.Blocks.{GivesBlock, next_in_vobu, dvdnav_get_next_cache_block_lem}
use libdvdnav.Player.Ticks.{time_of, dvdnav_convert_time_lem}
use libdvdnav.Player.Pack.{
  dsi_packet, pci_packet, system_header, pack_header, dvdnav_decode_packet_lem,
}

abbrev bare_chunk : Chunk
bare_chunk = record {
  cache_buffer = none;
  cache_buffer_base = 0;
  cache_start_sector = 0;
  cache_read_count = pos 0;
  cache_block_count = 0;
  cache_malloc_size = 0;
  cache_valid = false;
  usage_count = pos 0;
}

abbrev pub no_menu : Pci
no_menu = record {
  nv_pck_lbn = 0;
  vobu_uop_ctl = 0;
  nsml_agl_dsta = replicate 9 0;
  hli_ss = 0;
  hli_s_ptm = 0;
  btn_ns = 0;
  btn_coli = [];
  btnit = [];
}

abbrev short_unit : Dsi
short_unit = record {
  nv_pck_lbn = 100;
  vobu_ea = 10;
  c_eltm = record { hour = 0; minute = 0; second = 0; frame_u = 0x40 };
  category = 0;
  ilvu_ea = 0;
  sml_agli = replicate 9 0;
  next_vobu = sri_end_of_cell;
}

-- A block of the disc has its sector as its only byte.
abbrev disc : ℕ → Bytes
disc sector = sector ∷ []

abbrev pub drive : Libdvdread
drive = record {
  dvd_open_file = λ vts_n domain. some vts_n;
  dvd_read_blocks = λ file start size. some (sectors disc start size);
  nav_read_pci = λ p. no_menu;
  nav_read_dsi = λ p. short_unit;
}

abbrev pub here : Position
here = record {
  button = 0;
  vts = 1;
  domain = vmgm;
  spu_channel = 7;
  angle_channel = 7;
  audio_channel = 7;
  hop_channel = 0;
  cell = 2;
  cell_restart = 0;
  cell_start = 0;
  still = 0;
  block = 0;
}

-- A player in the middle of a unit.
abbrev pub playing : Dvdnav
playing = record {
  file = some 0;
  position_next = here;
  position_current = here;
  vobu = record { vobu_start = 100; vobu_length = 10; block_n = 3; vobu_next = 0 };
  pci = no_menu;
  dsi = short_unit;
  last_cmd_nav_lbn = sri_end_of_cell;
  skip_still = false;
  sync_wait = false;
  sync_wait_skip = false;
  spu_clut_changed = false;
  started = true;
  use_read_ahead = false;
  pgc_based = false;
  cur_cell_time = 0;
  vm = machine;
  map = none;
  store = record { cache = dvdnav_read_cache_new (replicate 10 bare_chunk); memory = λ a. [] };
}

pub at_here : vm_position_get machine ≡ value here machine
unfolding vm_position_get ◌>>=◌ sprm get_state current_pgc current_cell entry still_of hidden_still
at_here = refl

drive-Complete : (file : Option ℕ) → Complete disc (drive.dvd_read_blocks file)
drive-Complete file start size = refl

playing-StoreIsSound : StoreIsSound disc playing.store
playing-StoreIsSound =
    dvdnav_read_cache_new-StoreIsSound disc (replicate 10 bare_chunk) (λ a. []) refl

playing-Steady : Steady (record playing { position_next = here; vm = machine })
unfolding untold needs_file cell_changed
playing-Steady = record { told = refl; awaits = refl; still = refl }

dvdnav_get_next_cache_block_lem_example :
    GivesBlock disc drive 5 5 0 4096
      (dvdnav_get_next_cache_block drive 5 5 0 4096)
      playing
      104
      (next_in_vobu playing.vobu)
unfolding vobu_ended int32
dvdnav_get_next_cache_block_lem_example =
    dvdnav_get_next_cache_block_lem disc drive 5 5 0 4096 playing here machine refl refl at_here
      playing-Steady refl refl (drive-Complete (some 0)) playing-StoreIsSound (omega arith)

-- The player has shown another button.
abbrev at_button : Dvdnav
at_button = record playing { position_current = record here { button = 3 } }

dvdnav_convert_time_lem_example : dvdnav_convert_time (time_of true 0 1 2 3 4 5 1 2) ≡ 452286000
dvdnav_convert_time_lem_example =
    dvdnav_convert_time_lem true 0 1 2 3 4 5 1 2 (omega arith) (omega arith) (omega arith)
      (omega arith) (omega arith)

dvdnav_decode_packet_lem_example :
    dvdnav_decode_packet drive
      (pack_header
        (λ i. i)
        (0xff ∷ [])
        (system_header (1 ∷ 2 ∷ []) (pci_packet (3 ∷ 4 ∷ []) (dsi_packet 2 (9 ∷ [])))))
      playing
    ≡ value true (record playing { pci = no_menu; dsi = short_unit })
dvdnav_decode_packet_lem_example =
    dvdnav_decode_packet_lem drive playing (λ i. i) (0xff ∷ []) (1 ∷ 2 ∷ []) (3 ∷ 4 ∷ []) (9 ∷ []) 2
      (omega arith)
