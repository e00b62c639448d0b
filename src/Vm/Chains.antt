-- ===== src/Vm/Chains.antt =====
-- set_PGCN and get_PGCN of vm/vm.c in a title.
use libdvdnav.Prelude.{
  true, false, ltb, ◌||◌, ◌==◌, ne→==, ℕ, zero, suc, ◌+◌, ◌<◌, ◌≡◌, ◌≢◌, refl, ◌∙◌, ap, arith, some,
  List, [], ◌∷◌, get_elem?, length, get_elem?_of_lt, get_elem?-set_ne, get_elem?-set_self, set, u16,
}
use libdvdnav.Prelude.Program.{value, ◌>>=◌}
use libdvdnav.Vm.Disc.{Ifo, PgciSrp}
use libdvdnav.Vm.State.{Vm, vts_title, get_state, put_state, sprm, put_sprm}
use libdvdnav.Vm.Lookup.{
  title_pgcit, pgcit_of, get_pgcit, find_pgc, search_pgc, checked_pgcn, get_pgcn,
}
use libdvdnav.Vm.Sets.{entry, enter_pgc, set_pgcn}

-- No two entries of the table lead to the same program chain.
unfoldable pub IsDistinct : List PgciSrp → Type 0
IsDistinct pgcit =
    (i j : ℕ) (a b : PgciSrp)
    → get_elem? pgcit i ≡ some a
    → get_elem? pgcit j ≡ some b
    → a.pgc ≡ b.pgc
    → i ≡ j

find_pgc_lem :
    (pgcit : List PgciSrp) (k i : ℕ) (srp : PgciSrp)
    → get_elem? pgcit i ≡ some srp
    → ((j : ℕ) (a : PgciSrp) → j < i → get_elem? pgcit j ≡ some a → a.pgc ≢ srp.pgc)
    → find_pgc srp.pgc k pgcit ≡ some (k + i)
unfolding find_pgc
find_pgc_lem [] k i srp e before = absurd (cc)
find_pgc_lem (a ∷ pgcit) k zero srp e before =
    let here : (a.pgc == srp.pgc) ≡ true = ground (arith, e) in
    let same : k ≡ k + 0 = omega arith in rw here (ap some same)
find_pgc_lem (a ∷ pgcit) k (suc i) srp e before =
    let there = ne→== a.pgc srp.pgc (before 0 a (omega arith) refl) in
    let same : k + 1 + i ≡ k + suc i = omega arith in
    rw there
      (find_pgc_lem pgcit (k + 1) i srp e (λ j b lt. before (suc j) b (omega arith)) ∙ ap some same)

abbrev pub entered : Vm → (n pgc : ℕ) → Vm
entered vm n p =
    let s = vm.state in
    let r = s.registers in
    record vm {
      state = record s {
        pgc = some p;
        pgc_n = n;
        pg_n = 1;
        registers = record r { sprm = set r.sprm 6 (u16 n) };
      };
    }

pub set_pgcn-entered :
    (vm : Vm) (h : Ifo) (pgcit : List PgciSrp) (n lang : ℕ) (srp : PgciSrp)
    → vm.state.domain ≡ vts_title
    → vm.vtsi ≡ some h
    → h.vts_pgcit ≡ some pgcit
    → get_elem? vm.state.registers.sprm 0 ≡ some lang
    → get_elem? pgcit n ≡ some srp
    → (ltb (suc n) 1 || ltb (length pgcit) (suc n)) ≡ false
    → set_pgcn (suc n) vm ≡ value true (entered vm (suc n) srp.pgc)
unfolding set_pgcn get_pgcit sprm pgcit_of title_pgcit enter_pgc entry get_state put_state put_sprm
    ◌>>=◌
set_pgcn-entered vm h pgcit n lang srp title e table first here valid =
    rw (first, title, e, table, valid, here) refl

get_pgcn-entered :
    (vm : Vm) (h : Ifo) (pgcit : List PgciSrp) (n p lang : ℕ)
    → vm.state.domain ≡ vts_title
    → vm.vtsi ≡ some h
    → h.vts_pgcit ≡ some pgcit
    → get_elem? (set vm.state.registers.sprm 6 (u16 n)) 0 ≡ some lang
    → find_pgc p 1 pgcit ≡ some n
    → get_pgcn (entered vm n p) ≡ value n (entered vm n p)
unfolding get_pgcn get_pgcit sprm pgcit_of title_pgcit search_pgc checked_pgcn get_state ◌>>=◌
get_pgcn-entered vm h pgcit n p lang title e table first found =
    let same : (n == n) ≡ true = ground arith in rw (first, title, e, table, found, same) refl

-- In a title whose table has distinct program chains, set_PGCN of a valid number succeeds, and
-- get_PGCN then returns that number, which is also in register 6 (TT_PGCN).
pub get_pgcn-set_pgcn :
    (vm : Vm) (h : Ifo) (pgcit : List PgciSrp) (n : ℕ)
    → vm.state.domain ≡ vts_title
    → vm.vtsi ≡ some h
    → h.vts_pgcit ≡ some pgcit
    → IsDistinct pgcit
    → n < length pgcit
    → 6 < length vm.state.registers.sprm
    → (vm' : Vm) × (set_pgcn (suc n) vm ≡ value true vm')
      × (get_pgcn vm' ≡ value (suc n) vm')
      × (get_elem? vm'.state.registers.sprm 6 ≡ some (u16 (suc n)))
unfolding IsDistinct
get_pgcn-set_pgcn vm h pgcit n title e table distinct valid fits =
    let (srp, here) = get_elem?_of_lt pgcit n valid in
    let (lang, first) = get_elem?_of_lt vm.state.registers.sprm 0 (omega arith) in
    let valid_number : (ltb (suc n) 1 || ltb (length pgcit) (suc n)) ≡ false = ground arith in
    let number : 1 + n ≡ suc n = omega arith in
    let found =
      find_pgc_lem pgcit 1 n srp here
        (λ j a lt f same. absurd (omega (arith, distinct j n a srp f here same)))
      ∙ ap some number in
    (
      entered vm (suc n) srp.pgc,
      set_pgcn-entered vm h pgcit n lang srp title e table first here valid_number,
      get_pgcn-entered vm h pgcit (suc n) srp.pgc lang title e table
          (get_elem?-set_ne vm.state.registers.sprm 6 0 (u16 (suc n)) (omega arith) ∙ first) found,
      get_elem?-set_self vm.state.registers.sprm 6 (u16 (suc n)) fits,
    )
