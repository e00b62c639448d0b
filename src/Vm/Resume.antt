-- ===== src/Vm/Resume.antt =====
-- Saving and restoring the registers of a title around a call of a menu, in vm/vm.c.
use libdvdnav.Prelude.{
  ℕ, zero, suc, ◌+◌, ◌<◌, ◌≤◌, ◌≡◌, ◌⊎◌, inl, inr, refl, Option, none, if◌then◌else◌, ◌!=◌, sym,
  ◌∙◌, ap, subst, arith, some, Option-cases, List, [], ◌∷◌, get_elem?, length, set, length-set,
  get_elem?-set_self, get_elem?-set_ne,
}
use libdvdnav.Prelude.Program.{Outcome, value, aborted, fault, unfinished, then_do, element, ◌>>=◌}
use libdvdnav.Vm.State.{Vm, get_state, put_state}
use libdvdnav.Vm.Lookup.{get_pgcn}
use libdvdnav.Vm.Rests.{Unchanged, Rests, get_pgcn-Rests}
use libdvdnav.Vm.Sets.{read_from, set_rsm_info}
use libdvdnav.Vm.Links.{write_from, restore_registers}

-- `vs` are the entries of `xs` from `k` on.
unfoldable pub Copied : List ℕ → ℕ → List ℕ → Type 0
Copied xs k vs = (i : ℕ) → i < length vs → get_elem? vs i ≡ get_elem? xs (k + i)

next_entry :
    (xs : List ℕ) (k w : ℕ) (ws : List ℕ)
    → get_elem? xs k ≡ some w
    → Copied xs (k + 1) ws
    → Copied xs k (w ∷ ws)
unfolding Copied
next_entry xs k w ws here rest zero lt =
    let same : k ≡ k + 0 = omega arith in sym here ∙ ap (get_elem? xs) same
next_entry xs k w ws here rest (suc i) lt =
    let same : k + 1 + i ≡ k + suc i = omega arith in rest i (omega arith) ∙ ap (get_elem? xs) same

read_from_lem :
    (xs : List ℕ) (k count : ℕ) (vs : List ℕ)
    → read_from xs k count ≡ some vs
    → (length vs ≡ count) × Copied xs k vs
unfolding read_from Copied
read_from_lem xs k zero [] e = (refl, λ i lt. absurd (omega arith))
read_from_lem xs k zero (v ∷ vs) e = absurd (cc)
read_from_lem xs k (suc count) vs e = elim (Option-cases (get_elem? xs k)) [
  | inl out ↦ let wrong = rw (read_from, out) at e in absurd (cc)
  | inr (w, here) ↦ elim (Option-cases (read_from xs (k + 1) count)) [
    | inl out ↦ let wrong = rw (read_from, here, out) at e in absurd (cc)
    | inr (ws, read) ↦
        let same : w ∷ ws ≡ vs = (let both = rw (read_from, here, read) at e in cc) in
        let (size, copied) = read_from_lem xs (k + 1) count ws read in
        subst (λ us. (length us ≡ suc count) × Copied xs k us) same
          (ap suc size, next_entry xs k w ws here copied)
  ]
]

write_from_outside :
    (k : ℕ) (vs xs : List ℕ) (i : ℕ)
    → (i < k) ⊎ (k + length vs ≤ i)
    → get_elem? (write_from k vs xs) i ≡ get_elem? xs i
unfolding write_from
write_from_outside k [] xs i out = refl
write_from_outside k (v ∷ vs) xs i out =
    write_from_outside (k + 1) vs (set xs k v) i (ground arith)
    ∙ get_elem?-set_ne xs k i v (ground arith)

write_from_inside :
    (k : ℕ) (vs xs : List ℕ) (i : ℕ)
    → i < length vs
    → k + length vs ≤ length xs
    → get_elem? (write_from k vs xs) (k + i) ≡ get_elem? vs i
unfolding write_from
write_from_inside k [] xs i lt fits = absurd (omega arith)
write_from_inside k (v ∷ vs) xs zero lt fits =
    write_from_outside (k + 1) vs (set xs k v) (k + 0) (inl (omega arith))
    ∙ ap (get_elem? (set xs k v)) (omega arith)
    ∙ get_elem?-set_self xs k v (omega arith)
write_from_inside k (v ∷ vs) xs (suc i) lt fits =
    ap (get_elem? (write_from (k + 1) vs (set xs k v))) (omega arith)
    ∙ write_from_inside (k + 1) vs (set xs k v) i (omega arith) (omega (arith, length-set xs k v))

-- Registers 4 to 8 are written back from the saved ones; the other system registers stay.
restore_registers_lem :
    (vm : Vm) (saved : List ℕ)
    → read_from saved 4 5 ≡ some vm.state.rsm_regs
    → 9 ≤ length vm.state.registers.sprm
    → (vm' : Vm) × (restore_registers vm ≡ value tt vm')
      × ((i : ℕ) → i < 5 → get_elem? vm'.state.registers.sprm (4 + i) ≡ get_elem? saved (4 + i))
      × ((i : ℕ)
          → (i < 4) ⊎ (9 ≤ i)
          → get_elem? vm'.state.registers.sprm i ≡ get_elem? vm.state.registers.sprm i)
unfolding restore_registers Copied get_state put_state ◌>>=◌
restore_registers_lem vm saved read fits =
    let (size, copied) = read_from_lem saved 4 5 vm.state.rsm_regs read in
    let regs = vm.state.rsm_regs in
    let sprm = vm.state.registers.sprm in
    (
      record vm {
        state = record (vm.state) {
          registers = record (vm.state.registers) { sprm = write_from 4 regs sprm };
        };
      },
      refl,
      λ i lt. write_from_inside 4 regs sprm i (omega arith) (omega arith) ∙ copied i (omega arith),
      λ i out. write_from_outside 4 regs sprm i (ground arith),
    )

-- The registers that a run has saved.
regs_of : Outcome Vm (Unit {0}) → List ℕ
regs_of (value _ vm) = vm.state.rsm_regs
regs_of _ = []

saved_regs :
    (vm now saved : Vm) (n : ℕ) (regs : Option (List ℕ))
    → read_from vm.state.registers.sprm 4 5 ≡ regs
    → then_do (element regs now) (λ rs end.
      value tt (record end { state = record (now.state) { rsm_pgc_n = n; rsm_regs = rs } }))
      ≡ value tt saved
    → read_from vm.state.registers.sprm 4 5 ≡ some saved.state.rsm_regs
unfolding element regs_of
saved_regs vm now saved n none read e = absurd (cc)
saved_regs vm now saved n (some rs) read e = read ∙ ap some (ap regs_of e)

-- The machine when set_RSMinfo looks up the program chain.
abbrev looking_up : (cell_n block_n : ℕ) → Vm → Vm
looking_up cell_n block_n vm =
    let s = vm.state in
    record vm {
      state = record s {
        rsm_cell_n = if cell_n != 0 then cell_n else s.cell_n;
        rsm_block_n = block_n;
        rsm_vts_n = s.vts_n;
      };
    }

set_rsm_info-reads :
    (cell_n block_n : ℕ) (vm saved : Vm)
    → set_rsm_info cell_n block_n vm ≡ value tt saved
    → read_from vm.state.registers.sprm 4 5 ≡ some saved.state.rsm_regs
unfolding set_rsm_info Rests Unchanged get_state put_state ◌>>=◌
set_rsm_info-reads cell_n block_n vm saved e =
    go (get_pgcn (looking_up cell_n block_n vm)) (get_pgcn-Rests (looking_up cell_n block_n vm)) e
  where
    store : ℕ → Vm → Outcome Vm (Unit {0})
    store n now = then_do (element (read_from now.state.registers.sprm 4 5) now) (λ rs end.
        value tt (record end { state = record (now.state) { rsm_pgc_n = n; rsm_regs = rs } }))

    go :
        (o : Outcome Vm ℕ)
        → Unchanged o (looking_up cell_n block_n vm)
        → then_do o store ≡ value tt saved
        → read_from vm.state.registers.sprm 4 5 ≡ some saved.state.rsm_regs
    go (value n now) same run =
        ap (λ (t : Vm). read_from t.state.registers.sprm 4 5) (sym same)
        ∙ saved_regs now now saved n (read_from now.state.registers.sprm 4 5) refl run
    go aborted same run = absurd (cc)
    go fault same run = absurd (cc)
    go unfinished same run = absurd (cc)

-- The system registers 4 to 8 that set_RSMinfo has saved are the ones that LinkRSM writes back, in
-- whatever state the machine is by then, as long as the saved ones are kept; the other system
-- registers stay. (After this loop, LinkRSM goes on to set register 8, if its link has a button, and
-- register 7, the part.)
pub set_rsm_info-restore_registers :
    (cell_n block_n : ℕ) (vm saved later : Vm)
    → set_rsm_info cell_n block_n vm ≡ value tt saved
    → later.state.rsm_regs ≡ saved.state.rsm_regs
    → 9 ≤ length later.state.registers.sprm
    → (resumed : Vm) × (restore_registers later ≡ value tt resumed)
      × ((i : ℕ)
          → i < 5
          → get_elem? resumed.state.registers.sprm (4 + i)
            ≡ get_elem? vm.state.registers.sprm (4 + i))
      × ((i : ℕ)
          → (i < 4) ⊎ (9 ≤ i)
          → get_elem? resumed.state.registers.sprm i ≡ get_elem? later.state.registers.sprm i)
set_rsm_info-restore_registers cell_n block_n vm saved later saves kept fits =
    restore_registers_lem later vm.state.registers.sprm
      (set_rsm_info-reads cell_n block_n vm saved saves ∙ ap some (sym kept)) fits
