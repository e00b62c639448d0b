-- ===== src/Vm/Disc.antt =====
-- The tables of a disc that vm/vm.c reads, with the names that they have in libdvdread. Of each
-- structure, the fields that the code uses; an array has its count as its length.
use libdvdnav.Prelude.{ℕ, Option, List}
use libdvdnav.Decoder.Eval.{VmCmd}

-- `dvd_time_t`, two decimal digits a byte. `frame_u` has the frame rate in its top bits.
pub record DvdTime : Type 0 where
  pub hour : ℕ
  pub minute : ℕ
  pub second : ℕ
  pub frame_u : ℕ

-- `cell_playback_t`.
pub record Cell : Type 0 where
  pub block_mode : ℕ
  pub block_type : ℕ
  pub cell_cmd_nr : ℕ
  pub still_time : ℕ
  pub playback_time : DvdTime
  pub first_sector : ℕ
  pub last_vobu_start_sector : ℕ
  pub last_sector : ℕ

-- `pgc_command_tbl_t`.
pub record CommandTbl : Type 0 where
  pub pre_cmds : List VmCmd
  pub post_cmds : List VmCmd
  pub cell_cmds : List VmCmd

-- `pgc_t`: `program_map` has nr_of_programs entries, `cell_playback` nr_of_cells.
pub record Pgc : Type 0 where
  pub command_tbl : Option CommandTbl
  pub program_map : List ℕ
  pub cell_playback : List Cell
  pub next_pgc_nr : ℕ
  pub prev_pgc_nr : ℕ
  pub goup_pgc_nr : ℕ
  pub still_time : ℕ
  pub playback_time : DvdTime
  pub prohibited_ops : ℕ
  pub palette : List ℕ
  pub audio_control : List ℕ
  pub subp_control : List ℕ

-- `pgci_srp_t`. A pointer to a `pgc_t` is its number in the list of all.
pub record PgciSrp : Type 0 where
  pub entry_id : ℕ
  pub pgc : ℕ

-- `pgci_lu_t`: the menus in one language.
pub record PgciLu : Type 0 where
  pub lang_code : ℕ
  pub pgcit : List PgciSrp

-- `ptt_info_t`: a chapter.
pub record PttInfo : Type 0 where
  pub pgcn : ℕ
  pub pgn : ℕ

-- `title_info_t`.
pub record TitleInfo : Type 0 where
  pub title_set_nr : ℕ
  pub vts_ttn : ℕ
  pub nr_of_angles : ℕ
  pub nr_of_ptts : ℕ

-- `video_attr_t`.
pub record VideoAttr : Type 0 where
  pub video_format : ℕ
  pub picture_size : ℕ
  pub display_aspect_ratio : ℕ
  pub permitted_df : ℕ

-- `ifo_handle_t`. `none` is NULL; `first_play_pgcn` is the number in vmgi_mat.
pub record Ifo : Type 0 where
  pub first_play_pgc : Option ℕ
  pub first_play_pgcn : ℕ
  pub vmgm_video_attr : VideoAttr
  pub vtsm_video_attr : VideoAttr
  pub vts_video_attr : VideoAttr
  pub tt_srpt : List TitleInfo
  pub vts_ptt_srpt : List (List PttInfo)
  pub vts_pgcit : Option (List PgciSrp)
  pub menu_vobu_admap : Option (List ℕ)
  pub vts_vobu_admap : Option (List ℕ)
  pub pgci_ut : Option (List PgciLu)
