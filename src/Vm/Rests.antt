-- ===== src/Vm/Rests.antt =====
-- Actions of vm/vm.c that leave the machine as it is.
use libdvdnav.Prelude.{
  Bool, true, false, ◌≡◌, refl, ◌∙◌, subst, ◌⊎◌, inl, inr, ◌==◌, ℕ, Option, none, some, List,
}
use libdvdnav.Prelude.Program.{
  Outcome, value, aborted, fault, unfinished, pure, get, assert, element, when◌then◌else◌, ◌>>=◌,
  then_do,
}
use libdvdnav.Vm.Disc.{PgciLu, Ifo}
use libdvdnav.Vm.State.{V, Vm, Domain, first_play, vts_title, vmgm, vts_menu, get_state, sprm}
use libdvdnav.Vm.Lookup.{get_menu_pgcit, pgcit_of, title_pgcit, get_pgcit, checked_pgcn, get_pgcn}
use libdvdnav.Vm.Start.{vm_new_copy, copied, reopen, disconnected}

unfoldable pub Unchanged : {A : Type 0} → Outcome Vm A → Vm → Type 0
Unchanged (value a after) vm = after ≡ vm
Unchanged aborted vm = Unit
Unchanged fault vm = Unit
Unchanged unfinished vm = Unit

-- Every run that ends leaves the machine as it was.
unfoldable pub Rests : {A : Type 0} → V A → Type 0
Rests m = (vm : Vm) → Unchanged (m vm) vm

pub Rests-pure : {A : Type 0} (a : A) → Rests (pure a)
unfolding Rests Unchanged pure
Rests-pure a vm = refl

pub Rests-element : {A : Type 0} (o : Option A) → Rests (element o)
unfolding Rests Unchanged element
Rests-element none vm = tt
Rests-element (some a) vm = refl

pub Rests-when :
    {A : Type 0} (b : Bool) (m n : V A) → Rests m → Rests n → Rests (when b then m else n)
unfolding Rests when◌then◌else◌
Rests-when true m n hm hn = hm
Rests-when false m n hm hn = hn

pub Rests-get : Rests get
unfolding Rests Unchanged get
Rests-get vm = refl

pub Rests-assert : (b : Bool) → Rests (assert b)
unfolding Rests Unchanged assert
Rests-assert true vm = refl
Rests-assert false vm = tt

chained :
    {A : Type 0} (o : Outcome Vm A) (vm now : Vm) → now ≡ vm → Unchanged o now → Unchanged o vm
unfolding Unchanged
chained (value a after) vm now e h = h ∙ e
chained aborted vm now e h = tt
chained fault vm now e h = tt
chained unfinished vm now e h = tt

pub Rests-bind :
    {A B : Type 0} (m : V A) (k : A → V B) → Rests m → ((a : A) → Rests (k a)) → Rests (m >>= k)
unfolding Rests Unchanged ◌>>=◌
Rests-bind m k hm hk vm = go (m vm) (hm vm)
  where
    go : (o : Outcome Vm _) → Unchanged o vm → Unchanged (then_do o k) vm
    go (value a now) h = chained (k a now) vm now h (hk a now)
    go aborted h = tt
    go fault h = tt
    go unfinished h = tt

pub ruleset rests = (Rests-pure, Rests-element, Rests-when, Rests-get, Rests-assert, Rests-bind)

pub get_state-Rests : Rests get_state
unfolding get_state Rests Unchanged
get_state-Rests vm = refl

pub sprm-Rests : (i : ℕ) → Rests (sprm i)
unfolding sprm
sprm-Rests i = search (rests, get_state-Rests)

tables-Rests :
    (lang : ℕ) (h : Ifo) (o : Option (List PgciLu))
    → h.pgci_ut ≡ o
    → Rests (get_menu_pgcit (some h) lang)
unfolding get_menu_pgcit
tables-Rests lang h none e = rw (e) (Rests-pure none)
tables-Rests lang h (some lus) e = rw (e) (search rests)

get_menu_pgcit-Rests : (h : Option Ifo) (lang : ℕ) → Rests (get_menu_pgcit h lang)
unfolding get_menu_pgcit
get_menu_pgcit-Rests none lang = Rests-pure none
get_menu_pgcit-Rests (some h) lang = tables-Rests lang h h.pgci_ut refl

pgcit_of-Rests : (domain : Domain) (vm : Vm) (lang : ℕ) → Rests (pgcit_of domain vm lang)
unfolding pgcit_of
pgcit_of-Rests vts_title vm lang = Rests-pure (title_pgcit vm.vtsi)
pgcit_of-Rests vts_menu vm lang = get_menu_pgcit-Rests vm.vtsi lang
pgcit_of-Rests vmgm vm lang = get_menu_pgcit-Rests vm.vmgi lang
pgcit_of-Rests first_play vm lang = get_menu_pgcit-Rests vm.vmgi lang

pub get_pgcit-Rests : Rests get_pgcit
unfolding get_pgcit
get_pgcit-Rests = search (rests, sprm-Rests, pgcit_of-Rests)

checked_pgcn-Rests : (known : ℕ) (found : Option ℕ) → Rests (checked_pgcn known found)
unfolding checked_pgcn
checked_pgcn-Rests known none = Rests-pure 0
checked_pgcn-Rests known (some n) = search rests

pub get_pgcn-Rests : Rests get_pgcn
unfolding get_pgcn
get_pgcn-Rests = search (rests, get_state-Rests, get_pgcit-Rests, checked_pgcn-Rests)

-- The original after an attempt to copy it.
unfoldable pub CopiedAt : Outcome Vm (Option Vm) → Vm → Type 0
CopiedAt (value (some copy) now) vm = now ≡ vm
CopiedAt (value none now) vm = (now ≡ vm) ⊎ (now ≡ disconnected vm)
CopiedAt aborted vm = Unit
CopiedAt fault vm = Unit
CopiedAt unfinished vm = Unit

copied-CopiedAt : (o : Outcome Vm Bool) (vm : Vm) → CopiedAt (copied o vm) vm
unfolding copied CopiedAt
copied-CopiedAt (value true copy) vm = refl
copied-CopiedAt (value false copy) vm = inr refl
copied-CopiedAt aborted vm = tt
copied-CopiedAt fault vm = tt
copied-CopiedAt unfinished vm = tt

-- A copy that is made leaves the original as it is.
pub vm_new_copy-CopiedAt : (vm : Vm) → CopiedAt (vm_new_copy vm) vm
unfolding vm_new_copy Rests Unchanged CopiedAt get pure when◌then◌else◌ ◌>>=◌
vm_new_copy-CopiedAt vm = go (get_pgcn vm) (get_pgcn-Rests vm)
  where
    at :
        (pgc_n : ℕ) (b : Bool) (now : Vm)
        → now ≡ vm
        → CopiedAt ((when b then pure none else copied (reopen pgc_n now.state.pg_n now)) now) vm
    at pgc_n true now e = inl e
    at pgc_n false now e =
        subst (λ v. CopiedAt (copied (reopen pgc_n now.state.pg_n now) now) v) e
          (copied-CopiedAt (reopen pgc_n now.state.pg_n now) now)

    go :
        (o : Outcome Vm ℕ)
        → Unchanged o vm
        → CopiedAt
            (then_do o (λ pgc_n now.
              (when pgc_n == 0 then pure none else copied (reopen pgc_n now.state.pg_n now)) now))
            vm
    go (value pgc_n now) e = at pgc_n (pgc_n == 0) now e
    go aborted e = tt
    go fault e = tt
    go unfinished e = tt
