-- ===== src/Player/State.antt =====
-- `dvdnav_t` of dvdnav_internal.h, and the steps that dvdnav.c is written in.
use libdvdnav.Prelude.{Bool, ℕ, ◌-◌, ◌^◌, Option, List}
use libdvdnav.Prelude.Program.{Outcome, Program, value, aborted, fault, unfinished}
use libdvdnav.Decoder.Eval.{VmCmd}
use libdvdnav.Vm.Disc.{DvdTime}
use libdvdnav.Vm.State.{Vm, V}
use libdvdnav.Vm.Position.{Position}
use libdvdnav.ReadCache.State.{Store, ReadCache}
use libdvdnav.Remap.{Map}

-- A button of `pci_t`.
pub record Button : Type 0 where
  pub btn_coln : ℕ
  pub x_start : ℕ
  pub x_end : ℕ
  pub y_start : ℕ
  pub y_end : ℕ
  pub auto_action_mode : Bool
  pub up : ℕ
  pub down : ℕ
  pub left : ℕ
  pub right : ℕ
  pub cmd : VmCmd

-- The fields of libdvdread's `pci_t` that the code reads.
pub record Pci : Type 0 where
  pub nv_pck_lbn : ℕ
  pub vobu_uop_ctl : ℕ
  pub nsml_agl_dsta : List ℕ
  pub hli_ss : ℕ
  pub hli_s_ptm : ℕ
  pub btn_ns : ℕ
  pub btn_coli : List (List ℕ)
  pub btnit : List Button

-- The fields of libdvdread's `dsi_t` that the code reads.
pub record Dsi : Type 0 where
  pub nv_pck_lbn : ℕ
  pub vobu_ea : ℕ
  pub c_eltm : DvdTime
  pub category : ℕ
  pub ilvu_ea : ℕ
  pub sml_agli : List ℕ
  pub next_vobu : ℕ

-- `dvdnav_vobu_t`, the bit patterns of four `int32_t`.
pub record Vobu : Type 0 where
  pub vobu_start : ℕ
  pub vobu_length : ℕ
  pub block_n : ℕ
  pub vobu_next : ℕ

abbrev pub Bytes : Type 0
Bytes = List ℕ

-- `dvdnav_t`, with the cache and the memory as one store. `file` is the handle, `none` for NULL, and
-- `map` that of the virtual machine. In a position, -1 is its bit pattern.
pub record Dvdnav : Type 0 where
  pub file : Option ℕ
  pub position_next : Position
  pub position_current : Position
  pub vobu : Vobu
  pub pci : Pci
  pub dsi : Dsi
  pub last_cmd_nav_lbn : ℕ
  pub skip_still : Bool
  pub sync_wait : Bool
  pub sync_wait_skip : Bool
  pub spu_clut_changed : Bool
  pub started : Bool
  pub use_read_ahead : Bool
  pub pgc_based : Bool
  pub cur_cell_time : ℕ
  pub vm : Vm
  pub map : Option Map
  pub store : Store Bytes

abbrev pub P : Type 0 → Type 0
P A = Program Dvdnav A

pub data ReadDomain : Type 0 where
  menu_vobs title_vobs : ReadDomain

-- What the code calls of libdvdread.
pub record Libdvdread : Type 0 where
  pub dvd_open_file : (vts_n : ℕ) → ReadDomain → Option ℕ
  pub dvd_read_blocks : (file : Option ℕ) → (start size : ℕ) → Option (List Bytes)
  pub nav_read_pci : Bytes → Pci
  pub nav_read_dsi : Bytes → Dsi

abbrev pub minus_one : ℕ
minus_one = 2 ^ 32 - 1

abbrev pub sri_end_of_cell : ℕ
sri_end_of_cell = 0x3fffffff

abbrev pub hop_seek : ℕ
hop_seek = 0x1000

abbrev pub with_vm : {A : Type 0} → Dvdnav → Outcome Vm A → Outcome Dvdnav A
with_vm this (value a vm) = value a (record this { vm = vm })
with_vm this aborted = aborted
with_vm this fault = fault
with_vm this unfinished = unfinished

-- A call of the virtual machine.
unfoldable pub run_vm : {A : Type 0} → V A → P A
run_vm m this = with_vm this (m this.vm)

abbrev pub with_store : {A : Type 0} → Dvdnav → Outcome (Store Bytes) A → Outcome Dvdnav A
with_store this (value a s) = value a (record this { store = s })
with_store this aborted = aborted
with_store this fault = fault
with_store this unfinished = unfinished

-- A call of the read cache.
unfoldable pub run_cache : {A : Type 0} → ReadCache Bytes A → P A
run_cache m this = with_store this (m this.store)

-- A change of the player itself.
unfoldable pub update : (Dvdnav → Dvdnav) → P (Unit {0})
update f this = value tt (f this)
