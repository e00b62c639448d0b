-- ===== src/Vm/Titles.antt =====
-- get_TT of vm/vm.c: the search for the title of a title set.
use libdvdnav.Prelude.{
  true, false, Bool-cases, ◌&&◌, ◌==◌, ℕ, zero, suc, ◌+◌, ◌<◌, ◌≡◌, inl, inr, refl, arith, subst,
  some, List, [], ◌∷◌, get_elem?,
}
use libdvdnav.Prelude.Program.{value, ◌>>=◌}
use libdvdnav.Vm.Disc.{Ifo, TitleInfo}
use libdvdnav.Vm.State.{Vm, get_vmgi}
use libdvdnav.Vm.Lookup.{find_tt, get_tt}

-- The title is number `vts_ttn` of title set `vts_n`.
unfoldable pub IsTitle : (vts_n vts_ttn : ℕ) → TitleInfo → Type 0
IsTitle vts_n vts_ttn t = (t.title_set_nr ≡ vts_n) × (t.vts_ttn ≡ vts_ttn)

-- The first such title, counted from `base`, or 0 if there is none.
pub data FirstTitle (vts_n vts_ttn base : ℕ) (titles : List TitleInfo) (n : ℕ) : Type 0 where
  first_at :
      (i : ℕ) (t : TitleInfo)
      → n ≡ base + i
      → get_elem? titles i ≡ some t
      → IsTitle vts_n vts_ttn t
      → ((j : ℕ) (u : TitleInfo) → j < i → get_elem? titles j ≡ some u → ¬ IsTitle vts_n vts_ttn u)
      → FirstTitle vts_n vts_ttn base titles n
  nowhere :
      n ≡ 0
      → ((j : ℕ) (u : TitleInfo) → get_elem? titles j ≡ some u → ¬ IsTitle vts_n vts_ttn u)
      → FirstTitle vts_n vts_ttn base titles n

module _ (vts_n vts_ttn : ℕ) where
  test_true :
      (t : TitleInfo)
      → (t.title_set_nr == vts_n && t.vts_ttn == vts_ttn) ≡ true
      → IsTitle vts_n vts_ttn t
  unfolding IsTitle
  test_true t h = ground arith

  test_false :
      (t : TitleInfo)
      → (t.title_set_nr == vts_n && t.vts_ttn == vts_ttn) ≡ false
      → ¬ IsTitle vts_n vts_ttn t
  unfolding IsTitle
  test_false t h (a, b) = ground arith

  -- No title below `i` matches, also with `t` in front.
  none_before :
      (t : TitleInfo) (titles : List TitleInfo) (i : ℕ)
      → ¬ IsTitle vts_n vts_ttn t
      → ((j : ℕ) (u : TitleInfo) → j < i → get_elem? titles j ≡ some u → ¬ IsTitle vts_n vts_ttn u)
      → (j : ℕ) (u : TitleInfo) → j < suc i
      → get_elem? (t ∷ titles) j ≡ some u
      → ¬ IsTitle vts_n vts_ttn u
  none_before t titles i differs before zero u lt e =
      subst (λ v. ¬ IsTitle vts_n vts_ttn v) (cc) differs
  none_before t titles i differs before (suc j) u lt e = before j u (omega arith) e

  one_later :
      (base n : ℕ) (t : TitleInfo) (titles : List TitleInfo)
      → ¬ IsTitle vts_n vts_ttn t
      → FirstTitle vts_n vts_ttn (base + 1) titles n
      → FirstTitle vts_n vts_ttn base (t ∷ titles) n
  one_later base n t titles differs (first_at i u e at is before) =
      first_at (suc i) u (omega arith) at is (none_before t titles i differs before)
  one_later base n t titles differs (nowhere e none_is) =
      nowhere e
        (λ j u f. none_before t titles (suc j) differs (λ k v lt. none_is k v) j u (omega arith) f)

  find_tt_lem :
      (base : ℕ) (titles : List TitleInfo)
      → FirstTitle vts_n vts_ttn base titles (find_tt vts_n vts_ttn base titles)
  unfolding find_tt
  find_tt_lem base [] = nowhere refl (λ j u e. absurd (cc))
  find_tt_lem base (t ∷ titles) =
      elim (Bool-cases (t.title_set_nr == vts_n && t.vts_ttn == vts_ttn)) [
        | inl here ↦
            rw here
              (first_at 0 t (omega arith) refl (test_true t here) (λ j u lt. absurd (omega arith)))
        | inr there ↦
            rw there
              (one_later base _ t titles (test_false t there) (find_tt_lem (base + 1) titles))
      ]

-- get_TT returns the number, from 1, of the first title that is number `vts_ttn` of title set
-- `vts_n`, and 0 if there is none; it changes nothing.
pub get_tt_lem :
    (vts_n vts_ttn : ℕ) (vm : Vm) (vmgi : Ifo)
    → vm.vmgi ≡ some vmgi
    → (n : ℕ) × (get_tt vts_n vts_ttn vm ≡ value n vm) × FirstTitle vts_n vts_ttn 1 vmgi.tt_srpt n
unfolding get_tt get_vmgi ◌>>=◌
get_tt_lem vts_n vts_ttn vm vmgi e =
    (find_tt vts_n vts_ttn 1 vmgi.tt_srpt, rw e refl, find_tt_lem vts_n vts_ttn 1 vmgi.tt_srpt)
