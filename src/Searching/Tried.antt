-- ===== src/Searching/Tried.antt =====
-- The searches of searching.c that try a jump on a copy of the machine.
use libdvdnav.Prelude.{
  Bool, Bool-cases, true, false, not, ◌&&◌, ◌≡◌, refl, sym, ◌∙◌, ap, subst, arith, ◌⊎◌, inl, inr, ℕ,
  Option, none, some,
}
use libdvdnav.Prelude.Program.{
  Outcome, value, aborted, fault, unfinished, pure, when◌then◌else◌, ◌>>=◌, then_do,
}
use libdvdnav.Vm.State.{V, Vm, Domain, vts_title}
use libdvdnav.Vm.Sets.{same_domain}
use libdvdnav.Vm.Rests.{CopiedAt, vm_new_copy-CopiedAt}
use libdvdnav.Vm.Start.{vm_new_copy, vm_merge, disconnected}
use libdvdnav.Vm.Jumps.{MenuId, vm_jump_next_pg, vm_get_next_cell, vm_jump_resume, vm_jump_menu}
use libdvdnav.Player.State.{Dvdnav, P, run_vm, with_vm, update}
use libdvdnav.Highlight.{hop}
use libdvdnav.Navigation.{is_some}
use libdvdnav.Searching.Programs.{
  try_on, beside, accept, try_cell, try_program, dvdnav_next_pg_search, try_menu, try_resume,
  root_for, is_escape, dvdnav_menu_call,
}

-- The player after the copy has taken the place of the machine.
abbrev pub landed : Vm → Dvdnav → Dvdnav
landed copy this = record this {
  cur_cell_time = 0;
  position_current = record this.position_current { still = 0 };
  vm = hop copy;
}

-- The machine could not be copied, and has lost its disc.
abbrev pub Lost : Dvdnav → Dvdnav → Type 0
Lost this now =
    (vm_new_copy this.vm ≡ value none (disconnected this.vm))
    × (now ≡ record this { vm = disconnected this.vm })

-- A success takes over a machine of which `R` holds and which runs. A failure changes nothing, or the
-- machine could not be copied.
unfoldable pub TriedAt : (Vm → Type 0) → Outcome Dvdnav Bool → Dvdnav → Type 0
TriedAt R (value true now) this =
    (after : Vm) × R after × (after.stopped ≡ false) × (now ≡ landed after this)
TriedAt R (value false now) this = (now ≡ this) ⊎ Lost this now
TriedAt R aborted this = Unit
TriedAt R fault this = Unit
TriedAt R unfinished this = Unit

module _ (R : Vm → Type 0) (this : Dvdnav) where
  Tried : P Bool → Type 0
  Tried m = TriedAt R (m this) this

  Tried-no : Tried (pure false)
  unfolding Tried TriedAt pure
  Tried-no = inl refl

  accept-Tried : (after : Vm) → R after → after.stopped ≡ false → Tried (accept after)
  unfolding Tried TriedAt accept ◌>>=◌ run_vm update vm_merge
  accept-Tried after r runs = (after, r, runs, refl)

  Tried-when :
      (b : Bool) (m n : P Bool)
      → (b ≡ true → Tried m)
      → (b ≡ false → Tried n)
      → Tried (when b then m else n)
  unfolding Tried when◌then◌else◌
  Tried-when true m n hm hn = hm refl
  Tried-when false m n hm hn = hn refl

  try-Tried :
      {A : Type 0} (copy : Vm) (m : V A) (k : A × Vm → P Bool)
      → ((a : A) (after : Vm) → m copy ≡ value a after → Tried (k (a, after)))
      → Tried (try_on copy m >>= k)
  unfolding Tried TriedAt try_on ◌>>=◌
  try-Tried copy m k hk = go (m copy) refl
    where
      go : (o : Outcome Vm _) → m copy ≡ o → TriedAt R (then_do (beside this o) k) this
      go (value a after) e = hk a after e
      go aborted e = tt
      go fault e = tt
      go unfinished e = tt

  -- Without a copy, nothing is done.
  copy-Tried :
      (k : Option Vm → P Bool)
      → ((now : Dvdnav) → k none now ≡ value false now)
      → ((copy : Vm) → vm_new_copy this.vm ≡ value (some copy) this.vm → Tried (k (some copy)))
      → Tried (run_vm vm_new_copy >>= k)
  unfolding Tried TriedAt CopiedAt run_vm ◌>>=◌
  copy-Tried k hnone hsome = go (vm_new_copy this.vm) refl (vm_new_copy-CopiedAt this.vm)
    where
      with : Vm → Dvdnav
      with vm = record this { vm = vm }

      go :
          (o : Outcome Vm (Option Vm))
          → vm_new_copy this.vm ≡ o
          → CopiedAt o this.vm
          → TriedAt R (then_do (with_vm this o) k) this
      go (value (some copy) now) e h =
          subst (λ v. TriedAt R (k (some copy) (with v)) this) (sym h)
            (hsome copy (e ∙ ap (value (some copy)) h))
      go (value none now) e (inl h) = rw (hnone (with now)) (inl (ap with h))
      go (value none now) e (inr h) = rw (hnone (with now)) (inr (e ∙ ap (value none) h, ap with h))
      go aborted e h = tt
      go fault e h = tt
      go unfinished e h = tt

  -- The copy is taken if the jump succeeded and the machine runs.
  accept_if :
      (jumped : Bool) (after : Vm) (n : P Bool)
      → (jumped ≡ true → R after)
      → Tried n
      → Tried (when jumped && not after.stopped then accept after else n)
  accept_if jumped after n r hn =
      Tried-when (jumped && not after.stopped) (accept after) n
        (λ h. accept-Tried after (r (ground (arith, h))) (ground (arith, h))) (λ h. hn)

  accept_unless :
      (after : Vm) → R after → Tried (when after.stopped then pure false else accept after)
  accept_unless after r = Tried-when after.stopped _ _ (λ h. Tried-no) (λ h. accept-Tried after r h)

-- From a copy of machine `vm`.
abbrev pub FromCopy : (vm : Vm) → (Vm → Vm → Type 0) → Vm → Type 0
FromCopy vm J after = (copy : Vm) × (vm_new_copy vm ≡ value (some copy) vm) × J copy after

module _ (left rounds : ℕ) where
  -- The jump to the next program or, if it fails, to the next cell.
  abbrev pub Skips : (copy after : Vm) → Type 0
  Skips copy after =
      (vm_jump_next_pg left rounds copy ≡ value true after)
      ⊎ ((played : Bool) × (vm_get_next_cell left rounds copy ≡ value played after))

  -- The jump to the menu or, for the escape key, that of a resume or the one to the menu after a resume that failed.
  abbrev pub Calls : MenuId → (copy after : Vm) → Type 0
  Calls menu copy after =
      (vm_jump_menu left rounds (root_for menu) copy ≡ value true after)
      ⊎ ((is_escape menu ≡ true)
          × ((vm_jump_resume left rounds copy ≡ value true after)
              ⊎ ((resumed : Bool) × (tried : Vm) × (vm_jump_resume left rounds copy
                    ≡ value resumed tried)
                  × (vm_jump_menu left rounds (root_for menu) tried ≡ value true after))))

  no_cell : (now : Dvdnav) → try_cell left rounds none now ≡ value false now
  unfolding try_cell pure
  no_cell now = refl

  no_program : (now : Dvdnav) → try_program left rounds none now ≡ value false now
  unfolding try_program pure
  no_program now = refl

  no_copy :
      (menu : MenuId) (domain : Domain) (now : Dvdnav)
      → try_resume left rounds menu domain none now ≡ value false now
  unfolding try_resume pure
  no_copy menu domain now = refl

  module _ (this : Dvdnav) where
    try_cell-Tried :
        (copy : Vm)
        → vm_new_copy this.vm ≡ value (some copy) this.vm
        → Tried (FromCopy this.vm Skips) this (try_cell left rounds (some copy))
    unfolding try_cell
    try_cell-Tried copy e =
        try-Tried _ this copy (vm_get_next_cell left rounds) _
          (λ played after h. accept_unless _ this after (copy, e, inr (played, h)))

    try_program-Tried :
        (copy : Vm)
        → vm_new_copy this.vm ≡ value (some copy) this.vm
        → Tried (FromCopy this.vm Skips) this (try_program left rounds (some copy))
    unfolding try_program
    try_program-Tried copy e =
        try-Tried _ this copy (vm_jump_next_pg left rounds) _ (λ jumped after h.
          accept_if _ this jumped after _ (λ j. (copy, e, inl (h ∙ ap (λ b. value b after) j)))
            (copy-Tried _ this (try_cell left rounds) no_cell try_cell-Tried))

    next_lem : Tried (FromCopy this.vm Skips) this (dvdnav_next_pg_search left rounds)
    unfolding dvdnav_next_pg_search Tried ◌>>=◌
    next_lem =
        Tried-when _ this (is_some this.vm.state.pgc) _ _
          (λ h. copy-Tried _ this (try_program left rounds) no_program try_program-Tried)
          (λ h. Tried-no _ this)

    module _ (menu : MenuId) where
      try_menu-Tried :
          (machine : Vm)
          → ((after : Vm)
              → vm_jump_menu left rounds (root_for menu) machine ≡ value true after
              → FromCopy this.vm (Calls menu) after)
          → Tried (FromCopy this.vm (Calls menu)) this (try_menu left rounds menu machine)
      unfolding try_menu
      try_menu-Tried machine from =
          try-Tried _ this machine (vm_jump_menu left rounds (root_for menu)) _ (λ jumped after h.
            accept_if _ this jumped after _ (λ j. from after (h ∙ ap (λ b. value b after) j))
              (Tried-no _ this))

      try_resume-Tried :
          (domain : Domain) (copy : Vm)
          → vm_new_copy this.vm ≡ value (some copy) this.vm
          → Tried
              (FromCopy this.vm (Calls menu))
              this
              (try_resume left rounds menu domain (some copy))
      unfolding try_resume
      try_resume-Tried domain copy e =
          Tried-when _ this (is_escape menu && not (same_domain domain vts_title)) _ _
            (λ c.
              try-Tried _ this copy (vm_jump_resume left rounds) resumed_or_menu (λ resumed tried h.
                accept_if _ this resumed tried _
                  (λ j. (copy, e, inr (ground (arith, c), inl (h ∙ ap (λ b. value b tried) j))))
                  (try_menu-Tried tried
                    (λ after g. (copy, e, inr (ground (arith, c), inr (resumed, tried, h, g)))))))
            (λ c. try_menu-Tried copy (λ after g. (copy, e, inl g)))
        where
          resumed_or_menu : Bool × Vm → P Bool
          resumed_or_menu (resumed, tried) =
              when resumed && not tried.stopped
              then accept tried
              else try_menu left rounds menu tried

      called :
          (domain : Domain)
          → Tried
              (FromCopy this.vm (Calls menu))
              this
              (run_vm vm_new_copy >>= try_resume left rounds menu domain)
      called domain = copy-Tried _ this _ (no_copy menu domain) (try_resume-Tried domain)

  menu_lem :
      (menu : MenuId) (this : Dvdnav)
      → TriedAt (FromCopy this.vm (Calls menu)) (dvdnav_menu_call left rounds menu this) this
        ⊎ TriedAt
            (FromCopy this.vm (Calls menu))
            (dvdnav_menu_call left rounds menu this)
            (record this { cur_cell_time = 0 })
  unfolding dvdnav_menu_call Tried TriedAt update ◌>>=◌
  menu_lem menu this = elim (Bool-cases (is_some this.vm.state.pgc)) [
    | inl here ↦
        inr (rw (here) (called (record this { cur_cell_time = 0 }) menu this.vm.state.domain))
    | inr gone ↦ inl (rw (gone) (inl refl))
  ]

  -- A search for the next program that succeeds goes on with what a jump to the next program or the
  -- next cell has made of a copy of the machine, a call of a menu with what the jump to the menu or a
  -- resume has made of one; this machine runs, and the time of the cell and the still are set to 0.
  -- One that fails changes nothing, unless the machine could not be copied: then the machine has lost
  -- its disc. A call of a menu, failed or not, may set the time of the cell to 0 first.
  pub dvdnav_next_pg_search-TriedAt :
      (menu : MenuId) (this : Dvdnav)
      → TriedAt (FromCopy this.vm Skips) (dvdnav_next_pg_search left rounds this) this
        × (TriedAt (FromCopy this.vm (Calls menu)) (dvdnav_menu_call left rounds menu this) this
            ⊎ TriedAt
                (FromCopy this.vm (Calls menu))
                (dvdnav_menu_call left rounds menu this)
                (record this { cur_cell_time = 0 }))
  unfolding Tried
  dvdnav_next_pg_search-TriedAt menu this = (next_lem this, menu_lem menu this)
