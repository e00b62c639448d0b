-- ===== src/Searching/Admap.antt =====
-- What dvdnav_scan_admap of src/searching.c finds in an ascending table.
use libdvdnav.Prelude.{
  false, Bool-cases, ◌&&◌, leb, ltb, ℕ, zero, suc, ◌<◌, ◌≤◌, ◌≡◌, inl, inr, refl, ap, arith, some,
  List, [], ◌∷◌, get_elem?,
}
use libdvdnav.Prelude.Program.{value, ◌>>=◌}
use libdvdnav.Vm.State.{Vm, Domain}
use libdvdnav.Searching.{
  admap_of, scan_entries, sri_end_of_cell, chosen, scan_table, dvdnav_scan_admap,
}

-- The entries go up from `v`.
unfoldable pub Ascends : ℕ → List ℕ → Type 0
Ascends v [] = Unit
Ascends v (e ∷ entries) = (v < e) × Ascends e entries

-- The entry is the last one at or before the sector.
pub record LastBefore (seekto : ℕ) (entries : List ℕ) (v : ℕ) : Type 0 where
  pub position : ℕ
  pub listed : get_elem? entries position ≡ some v
  pub before : v ≤ seekto
  pub last : (j w : ℕ) → get_elem? entries j ≡ some w → w ≤ seekto → w ≤ v

all_above :
    (v : ℕ) (entries : List ℕ) (j w : ℕ) → Ascends v entries → get_elem? entries j ≡ some w → v < w
unfolding Ascends
all_above v [] j w up e = absurd (cc)
all_above v (x ∷ entries) zero w up e = ground (arith, up.0)
all_above v (x ∷ entries) (suc j) w up e = omega (arith, up.0, all_above x entries j w up.1 e)

stop_here :
    (seekto v e : ℕ) (entries : List ℕ)
    → v ≤ seekto
    → seekto < e
    → Ascends e entries
    → LastBefore seekto (v ∷ e ∷ entries) v
stop_here seekto v e entries le lt up = record {
  position = 0;
  listed = refl;
  before = le;
  last = above;
}
  where
    above : (j w : ℕ) → get_elem? (v ∷ e ∷ entries) j ≡ some w → w ≤ seekto → w ≤ v
    above zero w f small = ground arith
    above (suc zero) w f small = ground arith
    above (suc (suc j)) w f small = absurd (omega (arith, all_above e entries j w up f))

one_more_entry :
    (seekto v e r : ℕ) (entries : List ℕ)
    → v < e
    → e ≤ seekto
    → LastBefore seekto (e ∷ entries) r
    → LastBefore seekto (v ∷ e ∷ entries) r
one_more_entry seekto v e r entries up le found = record {
  position = suc found.position;
  listed = found.listed;
  before = found.before;
  last = latest;
}
  where
    latest : (j w : ℕ) → get_elem? (v ∷ e ∷ entries) j ≡ some w → w ≤ seekto → w ≤ r
    latest zero w f small = let reached = found.last 0 e refl le in ground arith
    latest (suc j) w f small = found.last j w f small

alone : (seekto v : ℕ) → v ≤ seekto → LastBefore seekto (v ∷ []) v
alone seekto v le = record { position = 0; listed = refl; before = le; last = only }
  where
    only : (j w : ℕ) → get_elem? (v ∷ []) j ≡ some w → w ≤ seekto → w ≤ v
    only zero w f small = ground arith
    only (suc j) w f small = absurd (cc)

scan_entries-LastBefore :
    (seekto v n : ℕ) (entries : List ℕ)
    → v ≤ seekto
    → Ascends v entries
    → LastBefore seekto (v ∷ entries) (scan_entries seekto entries v n).0
unfolding scan_entries Ascends
scan_entries-LastBefore seekto v n [] le up = alone seekto v le
scan_entries-LastBefore seekto v n (e ∷ entries) le up =
    elim (Bool-cases (leb v seekto && ltb seekto e)) [
      | inl here ↦ rw here (stop_here seekto v e entries le (ground arith) up.1)
      | inr on ↦
          let reached : e ≤ seekto = ground arith in
          rw on (
            one_more_entry seekto v e _ entries up.0 reached
              (scan_entries-LastBefore seekto e e entries reached up.1))
    ]

-- The first round never stops: the start is that of no unit.
skip_end :
    (seekto first : ℕ) (entries : List ℕ)
    → seekto < 0x3fffffff
    → scan_entries seekto (first ∷ entries) sri_end_of_cell 0
      ≡ scan_entries seekto entries first first
unfolding scan_entries
skip_end seekto first entries small =
    let far : leb 0x3fffffff seekto ≡ false = ground arith in rw far refl

-- In an ascending table whose first unit does not start behind the sector, dvdnav_scan_admap without
-- `next` returns the start of the last unit that starts at or before the sector.
pub dvdnav_scan_admap_lem :
    (domain : Domain) (vm : Vm) (seekto first : ℕ) (entries : List ℕ)
    → admap_of domain vm ≡ value (some (first ∷ entries)) vm
    → Ascends first entries
    → first ≤ seekto
    → seekto < 0x3fffffff
    → (v : ℕ) × (dvdnav_scan_admap domain seekto false vm ≡ value (some v) vm)
      × LastBefore seekto (first ∷ entries) v
unfolding dvdnav_scan_admap scan_table ◌>>=◌
dvdnav_scan_admap_lem domain vm seekto first entries table up le small = (
  (scan_entries seekto entries first first).0,
  rw table (ap (λ r. value (some (chosen false r)) vm) (skip_end seekto first entries small)),
  scan_entries-LastBefore seekto first first entries le up,
)
