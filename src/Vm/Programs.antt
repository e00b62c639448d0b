-- ===== src/Vm/Programs.antt =====
-- set_PGN of vm/vm.c: the program that a cell belongs to.
use libdvdnav.Prelude.{
  true, false, Bool-cases, ◌&&◌, ◌==◌, leb, ltb, ℕ, zero, suc, ◌<◌, ◌≤◌, ◌≡◌, ◌⊎◌, inl, inr, refl,
  arith, some, List, [], ◌∷◌, get_elem?, length,
}
use libdvdnav.Prelude.Program.{value, ◌>>=◌}
use libdvdnav.Vm.Disc.{Pgc}
use libdvdnav.Vm.State.{Vm, vts_title, get_state, put_state, current_pgc}
use libdvdnav.Vm.Sets.{same_domain, count_programs, set_pgn}

-- `n` programs start at or before the cell, and the next one, if any, starts after it.
pub record ProgramOf (cell : ℕ) (program_map : List ℕ) (n : ℕ) : Type 0 where
  pub within : n ≤ length program_map
  pub started : (i first : ℕ) → i < n → get_elem? program_map i ≡ some first → first ≤ cell
  pub next : (first : ℕ) → get_elem? program_map n ≡ some first → cell < first

one_more :
    (cell first : ℕ) (programs : List ℕ) (n : ℕ)
    → first ≤ cell
    → ProgramOf cell programs n
    → ProgramOf cell (first ∷ programs) (suc n)
one_more cell first programs n starts rest = record {
  within = omega (arith, rest.within);
  started = earlier;
  next = rest.next;
}
  where
    earlier : (i x : ℕ) → i < suc n → get_elem? (first ∷ programs) i ≡ some x → x ≤ cell
    earlier zero x lt e = ground arith
    earlier (suc i) x lt e = rest.started i x (omega arith) e

count_programs_lem :
    (cell : ℕ) (program_map : List ℕ) → ProgramOf cell program_map (count_programs cell program_map)
unfolding count_programs
count_programs_lem cell [] = record {
  within = omega arith;
  started = λ i first lt. absurd (omega arith);
  next = λ first e. absurd (cc);
}
count_programs_lem cell (first ∷ programs) = elim (Bool-cases (leb first cell)) [
  | inl starts ↦
      rw starts (one_more cell first programs _ (ground arith) (count_programs_lem cell programs))
  | inr later ↦ rw later (record {
    within = omega arith;
    started = λ i x lt. absurd (omega arith);
    next = λ x e. ground arith;
  })
]

-- Outside of titles set_PGN moves to the program of the cell; it fails, and changes nothing, only
-- past the last cell when every program has started.
pub set_pgn_lem :
    (vm : Vm) (p : ℕ) (pgc : Pgc)
    → vm.state.pgc ≡ some p
    → get_elem? vm.pgcs p ≡ some pgc
    → same_domain vm.state.domain vts_title ≡ false
    → (n : ℕ) × ProgramOf vm.state.cell_n pgc.program_map n
      × (((n ≡ length pgc.program_map)
            × (length pgc.cell_playback < vm.state.cell_n)
            × (set_pgn vm ≡ value false vm))
          ⊎ (((n ≡ length pgc.program_map) → vm.state.cell_n ≤ length pgc.cell_playback)
              × (set_pgn vm ≡ value true (record vm { state = record (vm.state) { pg_n = n } }))))
unfolding set_pgn current_pgc get_state put_state ◌>>=◌
set_pgn_lem vm p pgc e at outside =
    let n = count_programs vm.state.cell_n pgc.program_map in
    (
      n,
      count_programs_lem vm.state.cell_n pgc.program_map,
      elim (Bool-cases
          (n == length pgc.program_map && ltb (length pgc.cell_playback) vm.state.cell_n)) [
            | inl past ↦ inl (ground arith, ground arith, rw (e, at, past) refl)
            | inr inside ↦ inr (ground arith, rw (e, at, inside, outside) refl)
          ],
    )
