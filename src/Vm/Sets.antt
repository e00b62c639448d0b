-- ===== src/Vm/Sets.antt =====
-- The set functions of vm/vm.c: the jumps to a title, a part, a menu and a program chain.
use libdvdnav.Prelude.{
  Bool, true, false, if◌then◌else◌, ◌&&◌, ◌||◌, ◌==◌, ◌!=◌, ltb, leb, ℕ, zero, suc, ◌+◌, Option,
  none, some, List, [], ◌∷◌, length, get_elem?, u16,
}
use libdvdnav.Prelude.Program.{pure, element, get, put, assert, when◌then◌else◌, ◌>>=◌, ◌>>◌}
use libdvdnav.Vm.Disc.{Ifo, PgciSrp, PttInfo}
use libdvdnav.Vm.State.{
  V, Domain, vts_title, vts_menu, vmgm, first_play, get_state, put_state, get_vmgi, get_vtsi,
  current_pgc, sprm, put_sprm, tt_pgcn_reg, pttn_reg, ttn_reg, vts_ttn_reg,
}
use libdvdnav.Vm.Lookup.{get_tt, get_id, get_pgcit, get_pgcn, vm_get_current_title_part}

abbrev pub same_domain : Domain → Domain → Bool
same_domain first_play first_play = true
same_domain vts_title vts_title = true
same_domain vmgm vmgm = true
same_domain vts_menu vts_menu = true
same_domain _ _ = false

abbrev pub one_of : Domain → Domain → Domain → Bool
one_of d a b = same_domain d a || same_domain d b

unfoldable pub set_domain : Domain → V (Unit {0})
set_domain d = do s ← get_state; put_state (record s { domain = d })

-- `array[n - 1]`, which for 0 is in front of the array.
unfoldable pub entry : {A : Type 0} → List A → ℕ → Option A
entry xs zero = none
entry xs (suc i) = get_elem? xs i

-- The number of the title set changes only when all of its tables have been read.
unfoldable pub load_vtsi : ℕ → Option Ifo × Bool → V Bool
load_vtsi n (none, _) = do vm ← get; put (record vm { vtsi = none }); pure false
load_vtsi n (some ifo, false) = do vm ← get; put (record vm { vtsi = some ifo }); pure false
load_vtsi n (some ifo, true) = do
  vm ← get
  let s = vm.state
  put (record vm { vtsi = some ifo; state = record s { vts_n = n } })
  pure true

unfoldable pub ifo_open_new_vtsi : ℕ → V Bool
ifo_open_new_vtsi n = do
  vm ← get
  when vm.state.vts_n == n then pure true else load_vtsi n (vm.open_vtsi n)

unfoldable pub enter_pgc : ℕ → Option (List PgciSrp) → V Bool
enter_pgc n none = pure false
enter_pgc n (some pgcit) = when ltb n 1 || ltb (length pgcit) n then pure false else (do
  srp ← element (entry pgcit n)
  s ← get_state
  put_state (record s { pgc = some srp.pgc; pgc_n = n; pg_n = 1 })
  when same_domain s.domain vts_title then (do put_sprm tt_pgcn_reg n; pure true) else pure true)

unfoldable pub set_pgcn : ℕ → V Bool
set_pgcn n = get_pgcit >>= enter_pgc n

-- The loop of `set_PGN`: how many programs start at or before the cell.
unfoldable pub count_programs : ℕ → List ℕ → ℕ
count_programs cell [] = 0
count_programs cell (first ∷ programs) =
    if leb first cell then suc (count_programs cell programs) else 0

unfoldable pub part_or_zero : Option (ℕ × ℕ) → ℕ
part_or_zero none = 0
part_or_zero (some (title, part)) = part

unfoldable pub set_pgn : V Bool
set_pgn = do
  pgc ← current_pgc
  s ← get_state
  let new_pg_n = count_programs s.cell_n pgc.program_map
  when new_pg_n == length pgc.program_map && ltb (length pgc.cell_playback) s.cell_n
      then pure false
      else (do
        put_state (record s { pg_n = new_pg_n })
        when same_domain s.domain vts_title
            then (do
              ttn ← sprm ttn_reg
              vmgi ← get_vmgi
              when ltb (length vmgi.tt_srpt) ttn then pure false else (do
                found ← vm_get_current_title_part
                put_sprm pttn_reg (part_or_zero found)
                pure true))
            else pure true)

unfoldable pub set_pg_n : ℕ → V (Unit {0})
set_pg_n n = do s ← get_state; put_state (record s { pg_n = n })

-- What `set_VTS_PTT` does with the chapter that it has found.
unfoldable pub enter_part : (vts_n vts_ttn part : ℕ) → PttInfo → V Bool
enter_part vts_n vts_ttn part ptt = do
  put_sprm tt_pgcn_reg ptt.pgcn
  put_sprm pttn_reg part
  tt ← get_tt vts_n vts_ttn
  put_sprm ttn_reg tt
  when u16 tt == 0 then pure false else (do
    put_sprm vts_ttn_reg vts_ttn
    s ← get_state
    put_state (record s { vts_n = vts_n })
    res ← set_pgcn ptt.pgcn
    set_pg_n ptt.pgn
    pure res)

unfoldable pub find_part_of : (vts_n vts_ttn part : ℕ) → V Bool
find_part_of vts_n vts_ttn part = do
  vtsi ← get_vtsi
  when ltb vts_ttn 1 || ltb (length vtsi.vts_ptt_srpt) vts_ttn then pure false else (do
    title ← element (entry vtsi.vts_ptt_srpt vts_ttn)
    when ltb part 1 || ltb (length title) part
        then pure false
        else (element (entry title part) >>= enter_part vts_n vts_ttn part))

unfoldable pub set_vts_ptt : (vts_n vts_ttn part : ℕ) → V Bool
set_vts_ptt vts_n vts_ttn part = do
  set_domain vts_title
  s ← get_state
  opened ← (when vts_n != s.vts_n then ifo_open_new_vtsi vts_n else pure true)
  when opened then find_part_of vts_n vts_ttn part else pure false

unfoldable pub set_ptt : (tt ptt : ℕ) → V Bool
set_ptt tt ptt = do
  vmgi ← get_vmgi
  assert (leb tt (length vmgi.tt_srpt))
  title ← element (entry vmgi.tt_srpt tt)
  set_vts_ptt title.title_set_nr title.vts_ttn ptt

unfoldable pub set_tt : ℕ → V Bool
set_tt tt = set_ptt tt 1

unfoldable pub set_vts_tt : (vts_n vts_ttn : ℕ) → V Bool
set_vts_tt vts_n vts_ttn = set_vts_ptt vts_n vts_ttn 1

unfoldable pub enter_program : (vts_n vts_ttn pgcn pgn : ℕ) → V Bool
enter_program vts_n vts_ttn pgcn pgn = do
  vtsi ← get_vtsi
  when ltb vts_ttn 1 || ltb (length vtsi.vts_ptt_srpt) vts_ttn then pure false else (do
    put_sprm tt_pgcn_reg pgcn
    tt ← get_tt vts_n vts_ttn
    put_sprm ttn_reg tt
    assert (u16 tt != 0)
    put_sprm vts_ttn_reg vts_ttn
    s ← get_state
    put_state (record s { vts_n = vts_n })
    res ← set_pgcn pgcn
    set_pg_n pgn
    found ← vm_get_current_title_part
    put_sprm pttn_reg (part_or_zero found)
    pure res)

unfoldable pub set_vts_prog : (vts_n vts_ttn pgcn pgn : ℕ) → V Bool
set_vts_prog vts_n vts_ttn pgcn pgn = do
  set_domain vts_title
  s ← get_state
  opened ← (when vts_n != s.vts_n then ifo_open_new_vtsi vts_n else pure true)
  when opened then enter_program vts_n vts_ttn pgcn pgn else pure false

unfoldable pub set_prog : (tt pgcn pgn : ℕ) → V Bool
set_prog tt pgcn pgn = do
  vmgi ← get_vmgi
  assert (leb tt (length vmgi.tt_srpt))
  title ← element (entry vmgi.tt_srpt tt)
  set_vts_prog title.title_set_nr title.vts_ttn pgcn pgn

unfoldable pub first_pgc : Ifo → Option ℕ → V Bool
first_pgc vmgi none = set_pgcn 1
first_pgc vmgi (some p) = do
  s ← get_state
  put_state (record s { pgc = some p; pgc_n = vmgi.first_play_pgcn })
  pure true

unfoldable pub set_fp_pgc : V Bool
set_fp_pgc = do set_domain first_play; vmgi ← get_vmgi; first_pgc vmgi vmgi.first_play_pgc

unfoldable pub set_menu : ℕ → V Bool
set_menu menu = do
  s ← get_state
  assert (one_of s.domain vmgm vts_menu)
  id ← get_id menu
  set_pgcn id

-- A loop that reads `count` entries of an array from entry `k` on.
unfoldable pub read_from : List ℕ → (k count : ℕ) → Option (List ℕ)
read_from xs k zero = some []
read_from xs k (suc count) =
    let rest = read_from xs (k + 1) count in
    elim (get_elem? xs k) [
      | none ↦ none
      | some v ↦ elim rest [ none ↦ none | some vs ↦ some (v ∷ vs) ]
    ]

unfoldable pub set_rsm_info : (cell_n block_n : ℕ) → V (Unit {0})
set_rsm_info cell_n block_n = do
  s ← get_state
  put_state (record s {
    rsm_cell_n = if cell_n != 0 then cell_n else s.cell_n;
    rsm_block_n = block_n;
    rsm_vts_n = s.vts_n;
  })
  pgc_n ← get_pgcn
  t ← get_state
  regs ← element (read_from t.registers.sprm 4 5)
  put_state (record t { rsm_pgc_n = pgc_n; rsm_regs = regs })
