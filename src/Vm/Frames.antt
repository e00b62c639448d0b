-- ===== src/Vm/Frames.antt =====
-- What the steps of LinkRSM leave as it is in vm/vm.c.
use libdvdnav.Prelude.{
  Bool, true, false, ◌≡◌, ◌≢◌, ap, refl, ◌∙◌, ℕ, ◌⊎◌, inl, inr, Option, none, some, List, length,
  length-set, get_elem?, get_elem?-set_ne, u16,
}
use libdvdnav.Prelude.Program.{
  Outcome, value, aborted, fault, unfinished, pure, get, put, when◌then◌else◌, ◌>>=◌, then_do,
}
use libdvdnav.Vm.Disc.{PgciSrp, Ifo}
use libdvdnav.Vm.State.{
  V, Vm, State, Domain, get_state, put_state, put_sprm, get_vmgi, get_vtsi, current_pgc,
}
use libdvdnav.Vm.Lookup.{get_tt, name_part, vm_get_current_title_part}
use libdvdnav.Vm.Sets.{
  set_domain, load_vtsi, ifo_open_new_vtsi, enter_pgc, set_pgcn, set_pgn, count_programs,
}
use libdvdnav.Vm.Play.{set_cell_n}
use libdvdnav.Vm.Links.{set_button}
use libdvdnav.Vm.Rests.{
  Unchanged, Rests, rests, get_state-Rests, sprm-Rests, get_pgcn-Rests, get_pgcit-Rests, Rests-pure,
  Rests-get, Rests-element,
}

-- The saved registers, the saved cell and the system registers that are to be held are the same.
pub record Kept (held : ℕ → Bool) (vm now : Vm) : Type 0 where
  pub regs : now.state.rsm_regs ≡ vm.state.rsm_regs
  pub cell : now.state.rsm_cell_n ≡ vm.state.rsm_cell_n
  pub size : length now.state.registers.sprm ≡ length vm.state.registers.sprm
  pub same :
      (i : ℕ)
      → held i ≡ true
      → get_elem? now.state.registers.sprm i ≡ get_elem? vm.state.registers.sprm i

unfoldable pub KeptAt : {A : Type 0} → (ℕ → Bool) → Outcome Vm A → Vm → Type 0
KeptAt held (value a now) vm = Kept held vm now
KeptAt held aborted vm = Unit
KeptAt held fault vm = Unit
KeptAt held unfinished vm = Unit

unfoldable pub Keeps : {A : Type 0} → (ℕ → Bool) → V A → Type 0
Keeps held m = (vm : Vm) → KeptAt held (m vm) vm

pub Kept-trans : {held : ℕ → Bool} {a b c : Vm} → Kept held a b → Kept held b c → Kept held a c
Kept-trans h k = record {
  regs = k.regs ∙ h.regs;
  cell = k.cell ∙ h.cell;
  size = k.size ∙ h.size;
  same = λ i h'. k.same i h' ∙ h.same i h';
}

Kept-at :
    (held : ℕ → Bool) {A : Type 0} (o : Outcome Vm A) (a b : Vm)
    → Kept held a b
    → KeptAt held o b
    → KeptAt held o a
unfolding KeptAt
Kept-at held (value x now) a b h k = Kept-trans h k
Kept-at held aborted a b h k = tt
Kept-at held fault a b h k = tt
Kept-at held unfinished a b h k = tt

module _ (held : ℕ → Bool) where
  pub Keeps-Rests : {A : Type 0} (m : V A) → Rests m → Keeps held m
  unfolding Rests Unchanged Keeps KeptAt
  Keeps-Rests {A} m h vm = go (m vm) (h vm)
    where
      go : (o : Outcome Vm A) → Unchanged o vm → KeptAt held o vm
      go (value a now) e = record {
        regs = ap (λ (v : Vm). v.state.rsm_regs) e;
        cell = ap (λ (v : Vm). v.state.rsm_cell_n) e;
        size = ap (λ (v : Vm). length v.state.registers.sprm) e;
        same = λ i hold. ap (λ (v : Vm). get_elem? v.state.registers.sprm i) e;
      }
      go aborted e = tt
      go fault e = tt
      go unfinished e = tt

  pub Keeps-pure : {A : Type 0} (a : A) → Keeps held (pure a)
  Keeps-pure a = Keeps-Rests (pure a) (Rests-pure a)

  Keeps-when :
      {A : Type 0} (b : Bool) (m n : V A)
      → Keeps held m
      → Keeps held n
      → Keeps held (when b then m else n)
  unfolding Keeps when◌then◌else◌
  Keeps-when true m n hm hn = hm
  Keeps-when false m n hm hn = hn

  pub Keeps-bind :
      {A B : Type 0} (m : V A) (k : A → V B)
      → Keeps held m
      → ((a : A) → Keeps held (k a))
      → Keeps held (m >>= k)
  unfolding Keeps KeptAt ◌>>=◌
  Keeps-bind {A} m k hm hk vm = go (m vm) (hm vm)
    where
      go : (o : Outcome Vm A) → KeptAt held o vm → KeptAt held (then_do o k) vm
      go (value a now) h = Kept-at held (k a now) vm now h (hk a now)
      go aborted h = tt
      go fault h = tt
      go unfinished h = tt

  -- `f` is a change of the state that the actions after it do not see.
  Keeps-update :
      {B : Type 0} (b : State → Bool) (f : State → State) (m : V B) (k : State → Unit {0} → V B)
      → ((vm : Vm) → Kept held vm (record vm { state = f vm.state }))
      → Keeps held m
      → ((s : State) → Keeps held (k s tt))
      → Keeps held (get_state >>= λ s. when b s then m else (put_state (f s) >>= k s))
  unfolding Keeps get_state put_state ◌>>=◌
  Keeps-update b f m k hf hm hk vm = go (b vm.state)
    where
      after : Vm
      after = record vm { state = f vm.state }

      go :
          (c : Bool)
          → KeptAt held ((when c then m else (put_state (f vm.state) >>= k vm.state)) vm) vm
      go true = hm vm
      go false = Kept-at held (k vm.state tt after) vm after (hf vm) (hk vm.state after)

  put_sprm-Keeps : (j v : ℕ) → held j ≡ false → Keeps held (put_sprm j v)
  unfolding Keeps KeptAt put_sprm get_state put_state ◌>>=◌
  put_sprm-Keeps j v out vm = record {
    regs = refl;
    cell = refl;
    size = length-set vm.state.registers.sprm j (u16 v);
    same = λ i hold. get_elem?-set_ne vm.state.registers.sprm j i (u16 v) (apart i hold);
  }
    where
      apart : (i : ℕ) → held i ≡ true → j ≢ i
      apart i hold e = cc

  pub set_domain-Keeps : (d : Domain) → Keeps held (set_domain d)
  unfolding Keeps KeptAt set_domain get_state put_state ◌>>=◌
  set_domain-Keeps d vm = record { regs = refl; cell = refl; size = refl; same = λ i hold. refl }

  pub set_cell_n-Keeps : (n : ℕ) → Keeps held (set_cell_n n)
  unfolding Keeps KeptAt set_cell_n get_state put_state ◌>>=◌
  set_cell_n-Keeps n vm = record { regs = refl; cell = refl; size = refl; same = λ i hold. refl }

  load_vtsi-Keeps : (n : ℕ) (o : Option Ifo × Bool) → Keeps held (load_vtsi n o)
  unfolding Keeps KeptAt load_vtsi get put ◌>>=◌
  load_vtsi-Keeps n (none, b) vm = record {
    regs = refl;
    cell = refl;
    size = refl;
    same = λ i hold. refl;
  }
  load_vtsi-Keeps n (some ifo, false) vm = record {
    regs = refl;
    cell = refl;
    size = refl;
    same = λ i hold. refl;
  }
  load_vtsi-Keeps n (some ifo, true) vm = record {
    regs = refl;
    cell = refl;
    size = refl;
    same = λ i hold. refl;
  }

  -- The same without a branch.
  Keeps-change :
      {B : Type 0} (f : State → State) (k : State → Unit {0} → V B)
      → ((vm : Vm) → Kept held vm (record vm { state = f vm.state }))
      → ((s : State) → Keeps held (k s tt))
      → Keeps held (get_state >>= λ s. put_state (f s) >>= k s)
  unfolding Keeps get_state put_state ◌>>=◌
  Keeps-change f k hf hk vm =
      Kept-at held (k vm.state tt (record vm { state = f vm.state })) vm
        (record vm { state = f vm.state }) (hf vm) (hk vm.state (record vm { state = f vm.state }))

  pub ifo_open_new_vtsi-Keeps : (n : ℕ) → Keeps held (ifo_open_new_vtsi n)
  unfolding ifo_open_new_vtsi
  ifo_open_new_vtsi-Keeps n =
      Keeps-bind _ _ (Keeps-Rests _ Rests-get)
        (λ vm. Keeps-when _ _ _ (Keeps-pure true) (load_vtsi-Keeps n (vm.open_vtsi n)))

  enter_pgc-Keeps :
      (n : ℕ) (o : Option (List PgciSrp)) → held 6 ≡ false → Keeps held (enter_pgc n o)
  unfolding enter_pgc
  enter_pgc-Keeps n none out = Keeps-pure false
  enter_pgc-Keeps n (some pgcit) out = Keeps-when _ _ _ (Keeps-pure false) (
      Keeps-bind _ _ (Keeps-Rests _ (Rests-element _)) (λ srp.
        Keeps-change (λ s. record s { pgc = some srp.pgc; pgc_n = n; pg_n = 1 }) _
          (λ vm. record { regs = refl; cell = refl; size = refl; same = λ i hold. refl })
          (λ s.
            Keeps-when _ _ _ (Keeps-bind _ _ (put_sprm-Keeps 6 n out) (λ _. Keeps-pure true))
              (Keeps-pure true))))

  pub set_pgcn-Keeps : (n : ℕ) → held 6 ≡ false → Keeps held (set_pgcn n)
  unfolding set_pgcn
  set_pgcn-Keeps n out =
      Keeps-bind _ _ (Keeps-Rests _ get_pgcit-Rests) (λ o. enter_pgc-Keeps n o out)

  pub set_button-Keeps :
      (button : ℕ) → (button ≡ 0) ⊎ (held 8 ≡ false) → Keeps held (set_button button)
  unfolding set_button when◌then◌else◌
  set_button-Keeps button (inl no_button) = rw (no_button) (Keeps-pure tt)
  set_button-Keeps button (inr out) = Keeps-when _ _ _ (put_sprm-Keeps 8 _ out) (Keeps-pure tt)

get_vmgi-Rests : Rests get_vmgi
unfolding get_vmgi
get_vmgi-Rests = search rests

get_vtsi-Rests : Rests get_vtsi
unfolding get_vtsi
get_vtsi-Rests = search rests

current_pgc-Rests : Rests current_pgc
unfolding current_pgc
current_pgc-Rests = search rests

get_tt-Rests : (vts_n vts_ttn : ℕ) → Rests (get_tt vts_n vts_ttn)
unfolding get_tt
get_tt-Rests vts_n vts_ttn = search (rests, get_vmgi-Rests)

name_part-Rests : (vts_n : ℕ) (found : Option (ℕ × ℕ)) → Rests (name_part vts_n found)
unfolding name_part
name_part-Rests vts_n none = Rests-pure none
name_part-Rests vts_n (some (vts_ttn, part)) = search (rests, get_tt-Rests)

vm_get_current_title_part-Rests : Rests vm_get_current_title_part
unfolding vm_get_current_title_part
vm_get_current_title_part-Rests =
    search (rests, get_vtsi-Rests, get_pgcn-Rests, get_state-Rests, name_part-Rests)

pub set_pgn-Keeps : (held : ℕ → Bool) → held 7 ≡ false → Keeps held set_pgn
unfolding set_pgn
set_pgn-Keeps held out = Keeps-bind held _ _ (Keeps-Rests held _ current_pgc-Rests) (λ pgc.
    Keeps-update held _ (λ s. record s { pg_n = count_programs s.cell_n pgc.program_map }) _ _
      (λ vm. record { regs = refl; cell = refl; size = refl; same = λ i hold. refl })
      (Keeps-pure held false)
      (λ s.
        Keeps-when held _ _ _
          (Keeps-bind held _ _ (Keeps-Rests held _ (sprm-Rests 4)) (λ ttn.
            Keeps-bind held _ _ (Keeps-Rests held _ get_vmgi-Rests) (λ vmgi.
              Keeps-when held _ _ _ (Keeps-pure held false) (
                Keeps-bind held _ _ (Keeps-Rests held _ vm_get_current_title_part-Rests) (λ found.
                  Keeps-bind held _ _ (put_sprm-Keeps held 7 _ out) (λ _. Keeps-pure held true))))))
          (Keeps-pure held true)))
