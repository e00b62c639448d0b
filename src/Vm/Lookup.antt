-- ===== src/Vm/Lookup.antt =====
-- The get functions of vm/vm.c: searches in the tables of the disc.
use libdvdnav.Prelude.{
  Bool, false, if◌then◌else◌, ◌&&◌, ◌==◌, ℕ, zero, suc, ◌+◌, ◌-◌, Option, none, some, List, [], ◌∷◌,
  get_elem?, bit_or, bit_and,
}
use libdvdnav.Prelude.Int.{ℤ, pos, int_ltb, int16, int_eqb}
use libdvdnav.Prelude.Program.{
  pure, fault, abort, element, get, assert, when◌then◌else◌, ◌>>=◌, ◌>>◌,
}
use libdvdnav.Vm.Disc.{Ifo, PgciSrp, PgciLu, PttInfo, TitleInfo}
use libdvdnav.Vm.State.{
  V, Vm, Domain, vts_title, vts_menu, vmgm, first_play, get_state, get_vmgi, get_vtsi, sprm,
}

-- The loop of `get_TT` from title `i` on.
unfoldable pub find_tt : (vts_n vts_ttn : ℕ) → ℕ → List TitleInfo → ℕ
find_tt vts_n vts_ttn i [] = 0
find_tt vts_n vts_ttn i (t ∷ titles) =
    if t.title_set_nr == vts_n && t.vts_ttn == vts_ttn
    then i
    else find_tt vts_n vts_ttn (i + 1) titles

unfoldable pub get_tt : (vts_n vts_ttn : ℕ) → V ℕ
get_tt vts_n vts_ttn = do vmgi ← get_vmgi; pure (find_tt vts_n vts_ttn 1 vmgi.tt_srpt)

-- The menus in the wanted language, or those in the first one.
unfoldable pub find_lang : ℕ → List PgciLu → Option PgciLu
find_lang lang [] = none
find_lang lang (lu ∷ lus) = if lu.lang_code == lang then some lu else find_lang lang lus

unfoldable pub language_unit : ℕ → List PgciLu → Option PgciLu
language_unit lang lus = elim (find_lang lang lus) [ some lu ↦ some lu | none ↦ get_elem? lus 0 ]

unfoldable pub get_menu_pgcit : Option Ifo → ℕ → V (Option (List PgciSrp))
get_menu_pgcit none lang = pure none
get_menu_pgcit (some h) lang = elim h.pgci_ut [
  | none ↦ pure none
  | some lus ↦ element (language_unit lang lus) >>= λ lu. pure (some lu.pgcit)
]

unfoldable pub title_pgcit : Option Ifo → Option (List PgciSrp)
title_pgcit none = none
title_pgcit (some h) = h.vts_pgcit

unfoldable pub pgcit_of : Domain → Vm → ℕ → V (Option (List PgciSrp))
pgcit_of vts_title vm lang = pure (title_pgcit vm.vtsi)
pgcit_of vts_menu vm lang = get_menu_pgcit vm.vtsi lang
pgcit_of vmgm vm lang = get_menu_pgcit vm.vmgi lang
pgcit_of first_play vm lang = get_menu_pgcit vm.vmgi lang

unfoldable pub get_pgcit : V (Option (List PgciSrp))
get_pgcit = do vm ← get; lang ← sprm 0; pgcit_of vm.state.domain vm lang

-- The loop of `get_ID` from entry `i` on.
unfoldable pub find_id : ℕ → ℕ → List PgciSrp → ℕ
find_id id i [] = 0
find_id id i (srp ∷ srps) = if srp.entry_id == id then i + 1 else find_id id (i + 1) srps

unfoldable pub search_id : ℕ → Option (List PgciSrp) → V ℕ
search_id id none = abort
search_id id (some pgcit) = pure (find_id (bit_or id 0x80) 0 pgcit)

unfoldable pub get_id : ℕ → V ℕ
get_id id = get_pgcit >>= search_id id

-- The loop of `get_PGCN` from number `n` on: the first entry with the current pointer.
unfoldable pub find_pgc : ℕ → ℕ → List PgciSrp → Option ℕ
find_pgc p n [] = none
find_pgc p n (srp ∷ srps) = if srp.pgc == p then some n else find_pgc p (n + 1) srps

unfoldable pub search_pgc : Option ℕ → Option (List PgciSrp) → Option ℕ
search_pgc (some p) (some pgcit) = find_pgc p 1 pgcit
search_pgc _ _ = none

-- The entry found must be the one that the state names.
unfoldable pub checked_pgcn : ℕ → Option ℕ → V ℕ
checked_pgcn known none = pure 0
checked_pgcn known (some n) = assert (known == n) >> pure n

unfoldable pub get_pgcn : V ℕ
get_pgcn = do pgcit ← get_pgcit; s ← get_state; checked_pgcn s.pgc_n (search_pgc s.pgc pgcit)

-- `none` is the result 0.
unfoldable pub menu_of : ℕ → Option (List PgciSrp) → V (Option ℕ)
menu_of pgcn none = pure none
menu_of zero (some pgcit) = λ vm. fault
menu_of (suc i) (some pgcit) = do
  srp ← element (get_elem? pgcit i)
  pure (some (bit_and srp.entry_id 0xf))

unfoldable pub vm_get_current_menu : V (Option ℕ)
vm_get_current_menu = do s ← get_state; pgcit ← get_pgcit; menu_of s.pgc_n pgcit

-- The inner loop of `vm_get_current_title_part`, from part `part` on after the entry `before`.
unfoldable pub between : ℤ → Option PttInfo → PttInfo → Bool
between pg none ptt = false
between pg (some before) ptt = int_ltb pg (pos ptt.pgn) && int_ltb (pos before.pgn) pg

unfoldable pub find_part : ℤ → ℤ → ℕ → Option PttInfo → List PttInfo → Option ℕ
find_part pgc pg part before [] = none
find_part pgc pg part before (ptt ∷ ptts) =
    if int_eqb (pos ptt.pgcn) pgc && int_eqb (pos ptt.pgn) pg
    then some part
    else if int_eqb (pos ptt.pgcn) pgc && between pg before ptt
    then some (part - 1)
    else find_part pgc pg (part + 1) (some ptt) ptts

unfoldable pub find_title_part : ℤ → ℤ → ℕ → List (List PttInfo) → Option (ℕ × ℕ)
find_title_part pgc pg title [] = none
find_title_part pgc pg title (ptts ∷ titles) = elim (find_part pgc pg 0 none ptts) [
  | some part ↦ some (title + 1, part + 1)
  | none ↦ find_title_part pgc pg (title + 1) titles
]

-- The number on the disc of the title that was found.
unfoldable pub name_part : ℕ → Option (ℕ × ℕ) → V (Option (ℕ × ℕ))
name_part vts_n none = pure none
name_part vts_n (some (vts_ttn, part)) = do title ← get_tt vts_n vts_ttn; pure (some (title, part))

-- The title and part, if the function returns 1; a failure leaves the caller's variables alone.
unfoldable pub vm_get_current_title_part : V (Option (ℕ × ℕ))
vm_get_current_title_part = do
  vtsi ← get_vtsi
  pgc ← get_pgcn
  s ← get_state
  name_part s.vts_n (find_title_part (int16 pgc) (int16 s.pg_n) 0 vtsi.vts_ptt_srpt)
