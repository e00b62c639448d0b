-- ===== src/Vm/Tests.antt =====
-- The virtual machine of vm/vm.c on a small disc: uses of the theorems.
use libdvdnav.Prelude.{
  List, zero, suc, ℕ, ◌+◌, u16, ◌<◌, ◌≤◌, ◌≡◌, ◌⊎◌, refl, arith, true, false, none, some, [], ◌∷◌,
  replicate, get_elem?,
}
use libdvdnav.Prelude.Int.{int16, ℤ}
use libdvdnav.Prelude.Program.{◌>>=◌, value, unfinished}
use libdvdnav.Decoder.State.{World, play_this, unnamed}
use libdvdnav.Vm.Disc.{PgciSrp, Cell, Pgc, VideoAttr, DvdTime, Ifo}
use libdvdnav.Vm.State.{
  get_vmgi, get_vtsi, current_pgc, put_sprm, sprm, get_state, put_state, vts_title, Vm, vmgm,
}
use libdvdnav.Vm.Current.{NoStart, Found, vm_get_current_title_part_lem}
use libdvdnav.Vm.Lookup.{
  find_title_part, find_part, between, name_part, find_tt, get_pgcit, pgcit_of, title_pgcit,
  search_pgc, find_pgc, checked_pgcn, vm_get_current_title_part, get_tt, get_pgcn,
}
use libdvdnav.Vm.Chains.{IsDistinct, get_pgcn-set_pgcn}
use libdvdnav.Vm.Titles.{FirstTitle, get_tt_lem}
use libdvdnav.Vm.Sets.{
  set_pgcn, set_pgn, read_from, set_rsm_info, set_domain, ifo_open_new_vtsi, enter_pgc, entry,
  count_programs, part_or_zero,
}
use libdvdnav.Vm.Programs.{ProgramOf, set_pgn_lem}
use libdvdnav.Vm.Links.{restore_registers, resume, write_from, set_button}
use libdvdnav.Vm.Process.{process_command}
use libdvdnav.Vm.LinkRsm.{set_rsm_info-resume}
use libdvdnav.Vm.Play.{set_cell_n, link_of, leave_block, play_pgc}
use libdvdnav.Vm.Blocks.{leave_block_lem}
use libdvdnav.Vm.Endless.{process_command_endless}
use libdvdnav.Vm.Start.{vm_new_copy}
use libdvdnav.Vm.Copies.{vm_new_copy_lem}
use libdvdnav.Vm.First.{at_cell, play_pgc_plays}
use libdvdnav.Vm.Streams.Subpictures.{with_aspect, vm_get_subp_stream_lem}
use libdvdnav.Vm.Streams.{video_attr_of, vm_get_video_attr, vm_get_subp_stream, vm_get_audio_stream}
use libdvdnav.Vm.Streams.Bounds.{InRange, AudioStream, vm_get_audio_stream_lem}

abbrev time : DvdTime
time = record { hour = 0; minute = 0; second = 5; frame_u = 0x40 }

abbrev cell_of : (block_mode block_type : ℕ) → Cell
cell_of mode type = record {
  block_mode = mode;
  block_type = type;
  cell_cmd_nr = 0;
  still_time = 0;
  playback_time = time;
  first_sector = 0;
  last_vobu_start_sector = 10;
  last_sector = 20;
}

-- An ordinary cell, a block of two angles, and an ordinary cell.
abbrev chain : Pgc
chain = record {
  command_tbl = none;
  program_map = 1 ∷ 4 ∷ [];
  cell_playback = cell_of 0 0 ∷ cell_of 1 1 ∷ cell_of 3 1 ∷ cell_of 0 0 ∷ [];
  next_pgc_nr = 0;
  prev_pgc_nr = 0;
  goup_pgc_nr = 0;
  still_time = 0;
  playback_time = time;
  prohibited_ops = 0;
  palette = replicate 16 0;
  audio_control = 0x8200 ∷ replicate 7 0;
  subp_control = replicate 32 0;
}

abbrev wide_picture : VideoAttr
wide_picture = record {
  video_format = 1;
  picture_size = 0;
  display_aspect_ratio = 3;
  permitted_df = 0;
}

abbrev manager : Ifo
manager = record {
  first_play_pgc = none;
  first_play_pgcn = 0;
  vmgm_video_attr = wide_picture;
  vtsm_video_attr = wide_picture;
  vts_video_attr = wide_picture;
  tt_srpt =
      record { title_set_nr = 1; vts_ttn = 1; nr_of_angles = 2; nr_of_ptts = 1 }
      ∷ record { title_set_nr = 2; vts_ttn = 1; nr_of_angles = 1; nr_of_ptts = 1 }
      ∷ [];
  vts_ptt_srpt = [];
  vts_pgcit = none;
  menu_vobu_admap = some (0 ∷ 12 ∷ 30 ∷ []);
  vts_vobu_admap = none;
  pgci_ut =
      some (record { lang_code = 0x656e; pgcit = record { entry_id = 0x82; pgc = 0 } ∷ [] } ∷ []);
}

abbrev world : World
world = record {
  clock = λ _. record { tv_sec = 0; tv_usec = 0 };
  random = λ _. 0;
  clock_reads = 0;
  random_reads = 0;
}

abbrev pub machine : Vm
machine = record {
  vmgi = some manager;
  vtsi = none;
  state = record {
    registers = record {
      sprm = replicate 24 7;
      gprm = replicate 16 0;
      gprm_mode = replicate 16 0;
      gprm_time = replicate 16 (record { tv_sec = 0; tv_usec = 0 });
    };
    domain = vmgm;
    vts_n = 1;
    pgc = some 0;
    pgc_n = 1;
    pg_n = 1;
    cell_n = 2;
    cell_restart = 0;
    block_n = 0;
    rsm_vts_n = 1;
    rsm_block_n = 0;
    rsm_regs = 1 ∷ 2 ∷ 3 ∷ 4 ∷ 5 ∷ [];
    rsm_pgc_n = 1;
    rsm_cell_n = 1;
  };
  hop_channel = 0;
  stopped = false;
  pgcs = chain ∷ [];
  open_vtsi = λ _. (none, false);
  world = world;
}

get_tt_lem_example :
    (n : ℕ) × (get_tt 2 1 machine ≡ value n machine) × FirstTitle 2 1 1 manager.tt_srpt n
get_tt_lem_example = get_tt_lem 2 1 machine manager refl

set_pgn_lem_example :
    (n : ℕ) × ProgramOf 2 chain.program_map n
    × (((n ≡ 2) × (4 < 2) × (set_pgn machine ≡ value false machine))
        ⊎ (((n ≡ 2) → 2 ≤ 4)
            × (set_pgn machine
                ≡ value true (record machine { state = record (machine.state) { pg_n = n } }))))
set_pgn_lem_example = set_pgn_lem machine 0 chain refl refl refl

leave_block_lem_example :
    (k : ℕ) × (leave_block (cell_of 1 1) chain machine
      ≡ value tt (record machine { state = record (machine.state) { cell_n = 2 + 1 + k } }))
    × ((i : ℕ)
        → i < k
        → (c : Cell) × (get_elem? chain.cell_playback (2 + i) ≡ some c) × (2 ≤ c.block_mode))
    × ((c : Cell) → get_elem? chain.cell_playback (2 + k) ≡ some c → c.block_mode < 2)
leave_block_lem_example = leave_block_lem machine (cell_of 1 1) chain (omega arith) refl

play_pgc_plays_example :
    (n : ℕ) × ProgramOf 1 chain.program_map n
    × (play_pgc 0 machine ≡ value (link_of play_this) (at_cell machine 1 n))
    × (process_command 0 0 (link_of play_this) (at_cell machine 1 n)
        ≡ value true (at_cell machine 1 n))
play_pgc_plays_example =
    play_pgc_plays 0 0 machine 0 chain 0 (4 ∷ []) (cell_of 0 0) refl refl refl refl refl refl refl
      refl

vm_get_audio_stream_lem_example :
    (stream : ℤ) × (vm_get_audio_stream 5 machine ≡ value stream machine)
    × InRange 8 vmgm stream
    × AudioStream vmgm chain.audio_control 0 stream
vm_get_audio_stream_lem_example = vm_get_audio_stream_lem machine 0 5 chain refl refl (omega arith)

process_command_endless_example : process_command 0 1000 (link_of (unnamed 8)) machine ≡ unfinished
process_command_endless_example = process_command_endless 0 1000 8 0 0 0 machine

abbrev entries : List PgciSrp
entries = record { entry_id = 0; pgc = 3 } ∷ record { entry_id = 0; pgc = 5 } ∷ []

abbrev title_set : Ifo
title_set = record manager {
  vts_pgcit = some entries;
  vts_ptt_srpt = (record { pgcn = 1; pgn = 1 } ∷ record { pgcn = 1; pgn = 4 } ∷ []) ∷ [];
}

abbrev in_title : Vm
in_title = record machine {
  vtsi = some title_set;
  state = record (machine.state) { domain = vts_title };
}

entries-IsDistinct : IsDistinct entries
unfolding IsDistinct
entries-IsDistinct zero zero a b e f same = refl
entries-IsDistinct zero (suc zero) a b e f same = ground (arith, e, f, same)
entries-IsDistinct zero (suc (suc j)) a b e f same = absurd (cc)
entries-IsDistinct (suc zero) zero a b e f same = ground (arith, e, f, same)
entries-IsDistinct (suc zero) (suc zero) a b e f same = refl
entries-IsDistinct (suc zero) (suc (suc j)) a b e f same = absurd (cc)
entries-IsDistinct (suc (suc i)) j a b e f same = absurd (cc)

get_pgcn-set_pgcn_example :
    (vm' : Vm) × (set_pgcn 2 in_title ≡ value true vm')
    × (get_pgcn vm' ≡ value 2 vm')
    × (get_elem? vm'.state.registers.sprm 6 ≡ some (u16 2))
get_pgcn-set_pgcn_example =
    get_pgcn-set_pgcn in_title title_set entries 1 refl refl refl entries-IsDistinct (omega arith)
      (omega arith)

-- Program 2 of the first program chain: chapter 1, which goes on until program 4.
abbrev playing : Vm
playing = record in_title { state = record (in_title.state) { pgc = some 3; pg_n = 2 } }

playing_chain : get_pgcn playing ≡ value 1 playing
unfolding get_pgcn get_pgcit sprm pgcit_of title_pgcit search_pgc find_pgc checked_pgcn get_state
    ◌>>=◌
playing_chain = refl

vm_get_current_title_part_lem_example :
    ((vm_get_current_title_part playing ≡ value none playing)
      × NoStart (int16 1) (int16 2) title_set.vts_ptt_srpt)
    ⊎ ((vts_ttn title part : ℕ) × (vm_get_current_title_part playing
          ≡ value (some (title, part)) playing)
        × Found (int16 1) (int16 2) 0 title_set.vts_ptt_srpt (vts_ttn, part)
        × FirstTitle 1 vts_ttn 1 manager.tt_srpt title)
vm_get_current_title_part_lem_example =
    vm_get_current_title_part_lem playing title_set manager 1 refl refl playing_chain

abbrev copying : Vm
copying = record playing { open_vtsi = λ _. (some title_set, true) }

copying_chain : get_pgcn copying ≡ value 1 copying
unfolding get_pgcn get_pgcit sprm pgcit_of title_pgcit search_pgc find_pgc checked_pgcn get_state
    ◌>>=◌
copying_chain = refl

vm_new_copy_lem_example :
    (copy : Vm) × (srp : PgciSrp) × (vm_new_copy copying ≡ value (some copy) copying)
    × (get_elem? entries 0 ≡ some srp)
    × (copy.vtsi ≡ some title_set)
    × (copy.state.pgc ≡ some srp.pgc)
    × (copy.state.pgc_n ≡ 1)
    × (copy.state.pg_n ≡ 2)
    × (copy.state.cell_n ≡ 2)
    × (copy.state.block_n ≡ 0)
    × (copy.state.vts_n ≡ 1)
vm_new_copy_lem_example =
    vm_new_copy_lem copying title_set entries 0 7 refl copying_chain (omega arith) (omega arith)
      refl refl (omega arith) refl

picture_of_menu : vm_get_video_attr machine ≡ value wide_picture machine
unfolding vm_get_video_attr video_attr_of get_vmgi get_state ◌>>=◌
picture_of_menu = refl

vm_get_subp_stream_lem_example :
    (stream : ℤ) × (vm_get_subp_stream 4 1 machine ≡ value stream (with_aspect machine 7 3))
    × InRange 32 vmgm stream
vm_get_subp_stream_lem_example =
    vm_get_subp_stream_lem machine 0 4 1 7 chain wide_picture refl refl (omega arith)
      picture_of_menu refl refl

-- A title before a call of a menu, what is saved of it, and a menu later.
abbrev before_menu : Vm
before_menu = record playing {
  pgcs = replicate 6 chain;
  state = record (playing.state) {
    registers = record (playing.state.registers) { sprm = replicate 24 1 };
  };
}

abbrev saved_title : Vm
saved_title = record before_menu {
  state = record (before_menu.state) {
    rsm_cell_n = 3;
    rsm_block_n = 7;
    rsm_vts_n = 1;
    rsm_pgc_n = 1;
    rsm_regs = replicate 5 1;
  };
}

saves_title : set_rsm_info 3 7 before_menu ≡ value tt saved_title
unfolding set_rsm_info read_from get_pgcn get_pgcit sprm pgcit_of title_pgcit search_pgc find_pgc
    checked_pgcn get_state put_state ◌>>=◌
saves_title = refl

abbrev in_a_menu : Vm
in_a_menu = record saved_title {
  state = record (saved_title.state) {
    registers = record (saved_title.state.registers) { sprm = replicate 24 9 };
    domain = vmgm;
    pgc = some 0;
    pg_n = 2;
    cell_n = 1;
  };
}

abbrev back_in_title : Vm
back_in_title = record in_a_menu {
  state = record (in_a_menu.state) {
    registers = record (in_a_menu.state.registers) {
      sprm = 9 ∷ 9 ∷ 9 ∷ 9 ∷ 1 ∷ 1 ∷ 1 ∷ 1 ∷ 1 ∷ replicate 15 9;
    };
    domain = vts_title;
    pgc = some 3;
    pg_n = 1;
    cell_n = 3;
  };
}

resumes :
    resume 5 (link_of play_this) in_a_menu
    ≡ value (record (link_of play_this) { data1 = 7 }) back_in_title
unfolding resume set_domain ifo_open_new_vtsi set_pgcn enter_pgc entry restore_registers write_from
    set_button set_cell_n set_pgn count_programs part_or_zero put_sprm current_pgc get_vmgi get_vtsi
    vm_get_current_title_part find_title_part find_part between name_part get_tt find_tt int16
    get_pgcn get_pgcit sprm pgcit_of title_pgcit search_pgc find_pgc checked_pgcn get_state
    put_state ◌>>=◌
resumes = refl

set_rsm_info-resume_example :
    get_elem? back_in_title.state.registers.sprm 8 ≡ get_elem? before_menu.state.registers.sprm 8
set_rsm_info-resume_example =
    set_rsm_info-resume 5 3 7 (link_of play_this) (record (link_of play_this) { data1 = 7 })
      before_menu saved_title in_a_menu back_in_title saves_title refl (omega arith) (omega arith)
      (omega arith) resumes 8 refl
