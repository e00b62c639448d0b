-- ===== src/Vm/LinkRsm.antt =====
-- LinkRSM of vm/vm.c as a whole, after set_RSMinfo.
use libdvdnav.Prelude.{
  Bool, true, false, if◌then◌else◌, ◌&&◌, ◌||◌, ◌==◌, leb, ltb, ne→==, ◌≡◌, ◌≢◌, refl, sym, ◌∙◌, ap,
  arith, subst, zero, ℕ, suc, ◌+◌, ◌-◌, ◌≤◌, ◌<◌, ◌⊎◌, inl, inr, List, length, get_elem?,
}
use libdvdnav.Prelude.Program.{
  Outcome, value, aborted, fault, unfinished, pure, assert, when◌then◌else◌, ◌>>=◌, ◌>>◌, then_do,
}
use libdvdnav.Decoder.State.{Link}
use libdvdnav.Vm.State.{V, Vm, State, vts_title, get_state, put_state}
use libdvdnav.Vm.Sets.{set_domain, ifo_open_new_vtsi, set_pgcn, set_pgn, set_rsm_info}
use libdvdnav.Vm.Play.{set_cell_n}
use libdvdnav.Vm.Links.{set_button, restore_registers, resume}
use libdvdnav.Vm.Rests.{Rests-assert}
use libdvdnav.Vm.Frames.{
  Kept, KeptAt, Keeps, Kept-trans, Keeps-Rests, Keeps-bind, Keeps-pure, set_domain-Keeps,
  set_cell_n-Keeps, ifo_open_new_vtsi-Keeps, set_pgcn-Keeps, set_button-Keeps, set_pgn-Keeps,
}
use libdvdnav.Vm.Resume.{set_rsm_info-restore_registers}

-- A run of two actions that ends is a run of the first and one of the second.
runs :
    {A B : Type 0} (m : V A) (k : A → V B) (vm end : Vm) (b : B)
    → (m >>= k) vm ≡ value b end
    → (a : A) × (now : Vm) × (m vm ≡ value a now) × (k a now ≡ value b end)
unfolding ◌>>=◌
runs {A} m k vm end b e = go (m vm) refl e
  where
    go :
        (o : Outcome Vm A)
        → m vm ≡ o
        → then_do o k ≡ value b end
        → (a : A) × (now : Vm) × (m vm ≡ value a now) × (k a now ≡ value b end)
    go (value a now) h f = (a, now, h, f)
    go aborted h f = absurd (cc)
    go fault h f = absurd (cc)
    go unfinished h f = absurd (cc)

of_state :
    {B : Type 0} (k : State → V B) (vm : Vm) (o : Outcome Vm B)
    → (get_state >>= k) vm ≡ o
    → k vm.state vm ≡ o
unfolding get_state ◌>>=◌
of_state k vm o e = e

otherwise :
    {B : Type 0} (b : Bool) (m n : V B) (vm : Vm) (o : Outcome Vm B)
    → b ≡ false
    → (when b then m else n) vm ≡ o
    → n vm ≡ o
unfolding when◌then◌else◌
otherwise true m n vm o h e = absurd (cc)
otherwise false m n vm o h e = e

after_restore :
    {B : Type 0} (k : Unit {0} → V B) (vm mid : Vm) (o : Outcome Vm B)
    → restore_registers vm ≡ value tt mid
    → (restore_registers >>= k) vm ≡ o
    → k tt mid ≡ o
unfolding ◌>>=◌
after_restore k vm mid o h e = ap (λ r. then_do r k) (sym h) ∙ e

run-Kept :
    {A : Type 0} (held : ℕ → Bool) (m : V A) (a : A) (vm now : Vm)
    → Keeps held m
    → m vm ≡ value a now
    → Kept held vm now
unfolding Keeps KeptAt
run-Kept held m a vm now h e = subst (λ o. KeptAt held o vm) e (h vm)

-- Before the registers are written back, none of them is held.
abbrev nothing : ℕ → Bool
nothing i = false

-- After that, 4 to 6 are, and 8 if the link names no button.
abbrev title_registers : ℕ → ℕ → Bool
title_registers button i = (leb 4 i && ltb i 7) || (i == 8 && button == 0)

-- The saved cell after a run on the registers.
cell_of : Outcome Vm (Unit {0}) → ℕ
cell_of (value _ vm) = vm.state.rsm_cell_n
cell_of _ = 0

restored_cell :
    (vm mid : Vm) → restore_registers vm ≡ value tt mid → mid.state.rsm_cell_n ≡ vm.state.rsm_cell_n
unfolding restore_registers cell_of get_state put_state ◌>>=◌
restored_cell vm mid e = sym (ap cell_of e)

-- The run up to the loop on the registers: what is saved stays.
front_lem :
    {B : Type 0} (b : B) (n : ℕ) (m : ℕ) (k : Bool → V B) (later resumed : Vm)
    → (do
      set_domain vts_title
      opened ← ifo_open_new_vtsi n
      assert opened
      possible ← set_pgcn m
      k possible)
        later
      ≡ value b resumed
    → (possible : Bool) × (now : Vm) × Kept nothing later now × (k possible now ≡ value b resumed)
front_lem b n m k later resumed e =
    let (u, v1, a1, e1) = runs (set_domain vts_title) _ later resumed b e in
    let (opened, v2, a2, e2) = runs (ifo_open_new_vtsi n) _ v1 resumed b e1 in
    let (u', v3, a3, e3) = runs (assert opened) _ v2 resumed b e2 in
    let (possible, v4, a4, e4) = runs (set_pgcn m) _ v3 resumed b e3 in
    let first = run-Kept nothing _ u later v1 (set_domain-Keeps nothing vts_title) a1 in
    let second = run-Kept nothing _ opened v1 v2 (ifo_open_new_vtsi-Keeps nothing n) a2 in
    let third = run-Kept nothing _ u' v2 v3 (Keeps-Rests nothing _ (Rests-assert opened)) a3 in
    let fourth = run-Kept nothing _ possible v3 v4 (set_pgcn-Keeps nothing m refl) a4 in
    (possible, v4, Kept-trans (Kept-trans (Kept-trans first second) third) fourth, e4)

-- The rest for a saved cell, from the button on.
back_lem :
    {B : Type 0} (b : B) (button : ℕ) (other : State → V B) (r : State → B) (mid resumed : Vm)
    → mid.state.rsm_cell_n ≢ 0
    → (do
      set_button button
      t ← get_state
      when t.rsm_cell_n == 0
          then other t
          else (do set_cell_n t.rsm_cell_n; found ← set_pgn; assert found; pure (r t)))
        mid
      ≡ value b resumed
    → Kept (title_registers button) mid resumed
back_lem b button other r mid resumed some_cell e =
    let held : ℕ → Bool = title_registers button in
    let (u, v, a, e1) = runs (set_button button) _ mid resumed b e in
    let first : Kept held mid v =
      run-Kept held _ u mid v (set_button-Keeps held button (named button)) a in
    let still : v.state.rsm_cell_n ≢ 0 = (λ z. some_cell (sym first.cell ∙ z)) in
    let e2 = otherwise _ _ _ v _ (ne→== v.state.rsm_cell_n 0 still) (of_state _ v _ e1) in
    Kept-trans first (
      run-Kept held _ b v resumed
        (Keeps-bind held _ _ (set_cell_n-Keeps held _) (λ _.
          Keeps-bind held _ _ (set_pgn-Keeps held refl) (λ found.
            Keeps-bind held _ _ (Keeps-Rests held _ (Rests-assert found))
              (λ _. Keeps-pure held _))))
        e2)
  where
    named : (button : ℕ) → (button ≡ 0) ⊎ (title_registers button 8 ≡ false)
    named zero = inl refl
    named (suc n) = inr (ground arith)

-- A resume in a saved cell that ends has put the system registers 4 to 6 back to what they were when
-- set_RSMinfo saved them, and so register 8, unless the link names a button: whatever the machine is by
-- then, if what was saved is kept.
pub set_rsm_info-resume :
    (left cell_n block_n : ℕ) (l link : Link) (vm saved later resumed : Vm)
    → set_rsm_info cell_n block_n vm ≡ value tt saved
    → later.state.rsm_regs ≡ saved.state.rsm_regs
    → later.state.rsm_vts_n ≢ 0
    → later.state.rsm_cell_n ≢ 0
    → 9 ≤ length later.state.registers.sprm
    → resume left l later ≡ value link resumed
    → (i : ℕ) → title_registers l.data1 i ≡ true
    → get_elem? resumed.state.registers.sprm i ≡ get_elem? vm.state.registers.sprm i
unfolding resume
set_rsm_info-resume left cell_n block_n l link vm saved later resumed saves kept vts cell fits e i
      hold =
    let e1 = otherwise _ _ _ later _ (ne→== later.state.rsm_vts_n 0 vts) (of_state _ later _ e) in
    let (possible, now, front, e2) = front_lem link _ _ _ later resumed e1 in
    let (mid, back, inside, outside) =
      set_rsm_info-restore_registers cell_n block_n vm saved now saves (front.regs ∙ kept)
        (omega (arith, front.size, fits)) in
    let still : mid.state.rsm_cell_n ≢ 0 =
      (λ z. cell (sym front.cell ∙ sym (restored_cell now mid back) ∙ z)) in
    let last = back_lem link l.data1 _ _ mid resumed still (after_restore _ now mid _ back e2) in
    last.same i hold ∙ restored _ _ i hold inside
  where
    restored :
        (xs ys : List ℕ) (i : ℕ)
        → title_registers l.data1 i ≡ true
        → ((j : ℕ) → j < 5 → get_elem? xs (4 + j) ≡ get_elem? ys (4 + j))
        → get_elem? xs i ≡ get_elem? ys i
    restored xs ys i hold inside =
        let range : (4 ≤ i) × (i < 9) = ground (arith, hold) in
        let same : 4 + (i - 4) ≡ i = omega (arith, range) in
        subst (λ j. get_elem? xs j ≡ get_elem? ys j) same (inside (i - 4) (omega (arith, range)))
