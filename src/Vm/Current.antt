-- ===== src/Vm/Current.antt =====
-- vm_get_current_title_part of vm/vm.c over the tables of the disc.
use libdvdnav.Prelude.{
  false, ◌&&◌, ℕ, zero, suc, ◌+◌, ◌≡◌, ◌⊎◌, inl, inr, refl, ◌∙◌, ap, subst, arith, Option-cases,
  some, none, List, [], ◌∷◌, get_elem?,
}
use libdvdnav.Prelude.Int.{ℤ, pos, int_eqb, int16}
use libdvdnav.Prelude.Program.{value, ◌>>=◌}
use libdvdnav.Vm.Disc.{Ifo, PttInfo}
use libdvdnav.Vm.State.{Vm, get_state, get_vtsi}
use libdvdnav.Vm.Lookup.{find_part, find_title_part, get_pgcn, name_part, vm_get_current_title_part}
use libdvdnav.Vm.Chapters.{IsChapter, find_whole, whole_misses}
use libdvdnav.Vm.Titles.{FirstTitle, get_tt_lem}

-- No chapter of the title set starts at the program.
unfoldable pub NoStart : ℤ → ℤ → List (List PttInfo) → Type 0
NoStart pgc pg titles =
    (i j : ℕ) (ptts : List PttInfo) (ptt : PttInfo)
    → get_elem? titles i ≡ some ptts
    → get_elem? ptts j ≡ some ptt
    → (int_eqb (pos ptt.pgcn) pgc && int_eqb (pos ptt.pgn) pg) ≡ false

module _ (pgc pg : ℤ) where
  unfoldable pub Found : ℕ → List (List PttInfo) → ℕ × ℕ → Type 0
  Found base titles (title, part) =
      (i q : ℕ) × (ptts : List PttInfo) × (title ≡ base + i + 1)
      × (part ≡ q + 1)
      × (get_elem? titles i ≡ some ptts)
      × IsChapter pgc pg ptts q

  pass_title :
      (base : ℕ) (ptts : List PttInfo) (titles : List (List PttInfo)) (r : ℕ × ℕ)
      → Found (base + 1) titles r
      → Found base (ptts ∷ titles) r
  unfolding Found
  pass_title base ptts titles (title, part) (i, q, others, t, p, at, chapter) =
      (suc i, q, others, omega arith, p, at, chapter)

  base_case :
      (base q : ℕ) (ptts : List PttInfo) (titles : List (List PttInfo))
      → find_part pgc pg 0 none ptts ≡ some q
      → Found base (ptts ∷ titles) (base + 1, q + 1)
  unfolding Found
  base_case base q ptts titles found =
      (0, q, ptts, omega arith, refl, refl, find_whole pgc pg ptts q found)

  find_title_part-Found :
      (base : ℕ) (titles : List (List PttInfo)) (r : ℕ × ℕ)
      → find_title_part pgc pg base titles ≡ some r
      → Found base titles r
  unfolding find_title_part
  find_title_part-Found base [] r e = absurd (cc)
  find_title_part-Found base (ptts ∷ titles) r e =
      elim (Option-cases (find_part pgc pg 0 none ptts)) [
        | inl nothing ↦
            pass_title base ptts titles r
              (find_title_part-Found (base + 1) titles r (rw (find_title_part, nothing) at e))
        | inr (q, found) ↦
            let same : (base + 1, q + 1) ≡ r =
              (let both = rw (find_title_part, found) at e in cc) in
            subst (Found base (ptts ∷ titles)) same (base_case base q ptts titles found)
      ]

  first_title :
      (ptts : List PttInfo) (titles : List (List PttInfo))
      → ((j : ℕ) (ptt : PttInfo)
          → get_elem? ptts j ≡ some ptt
          → (int_eqb (pos ptt.pgcn) pgc && int_eqb (pos ptt.pgn) pg) ≡ false)
      → NoStart pgc pg titles
      → NoStart pgc pg (ptts ∷ titles)
  unfolding NoStart
  first_title ptts titles none_here later zero j others ptt at f =
      let same : ptts ≡ others = cc in
      none_here j ptt (ap (λ (xs : List PttInfo). get_elem? xs j) same ∙ f)
  first_title ptts titles none_here later (suc i) j others ptt at f = later i j others ptt at f

  no_titles : NoStart pgc pg []
  unfolding NoStart
  no_titles i j ptts ptt at = absurd (cc)

  find_title_part-NoStart :
      (base : ℕ) (titles : List (List PttInfo))
      → find_title_part pgc pg base titles ≡ none
      → NoStart pgc pg titles
  unfolding find_title_part
  find_title_part-NoStart base [] e = no_titles
  find_title_part-NoStart base (ptts ∷ titles) e =
      elim (Option-cases (find_part pgc pg 0 none ptts)) [
        | inr (q, found) ↦ let some_part = rw (find_title_part, found) at e in absurd (cc)
        | inl nothing ↦
            first_title ptts titles (whole_misses pgc pg ptts nothing)
              (find_title_part-NoStart (base + 1) titles (rw (find_title_part, nothing) at e))
      ]

loaded : (vm : Vm) (h : Ifo) → vm.vtsi ≡ some h → get_vtsi vm ≡ value h vm
unfolding get_vtsi ◌>>=◌
loaded vm h e = rw e refl

search_result :
    (vm : Vm) (h : Ifo) (n : ℕ)
    → vm.vtsi ≡ some h
    → get_pgcn vm ≡ value n vm
    → vm_get_current_title_part vm
      ≡ name_part vm.state.vts_n
          (find_title_part (int16 n) (int16 vm.state.pg_n) 0 h.vts_ptt_srpt)
          vm
unfolding vm_get_current_title_part get_state ◌>>=◌
search_result vm h n e number = rw (loaded vm h e, number) refl

-- The current title and part are those of a chapter that the current program is in, found by its
-- program chain, and the title is the first of the disc with that title set and number (0 if there is
-- none). The function fails only if no chapter of the title set starts at the current program. The
-- machine does not change.
pub vm_get_current_title_part_lem :
    (vm : Vm) (h g : Ifo) (n : ℕ)
    → vm.vtsi ≡ some h
    → vm.vmgi ≡ some g
    → get_pgcn vm ≡ value n vm
    → ((vm_get_current_title_part vm ≡ value none vm)
        × NoStart (int16 n) (int16 vm.state.pg_n) h.vts_ptt_srpt)
      ⊎ ((vts_ttn title part : ℕ) × (vm_get_current_title_part vm ≡ value (some (title, part)) vm)
          × Found (int16 n) (int16 vm.state.pg_n) 0 h.vts_ptt_srpt (vts_ttn, part)
          × FirstTitle vm.state.vts_n vts_ttn 1 g.tt_srpt title)
unfolding name_part ◌>>=◌
vm_get_current_title_part_lem vm h g n e f number =
    elim (Option-cases (find_title_part (int16 n) (int16 vm.state.pg_n) 0 h.vts_ptt_srpt)) [
      | inl nothing ↦ inl (
        search_result vm h n e number ∙ rw (nothing) refl,
        find_title_part-NoStart (int16 n) (int16 vm.state.pg_n) 0 h.vts_ptt_srpt nothing,
      )
      | inr ((vts_ttn, part), found) ↦
          let (title, run, first) = get_tt_lem vm.state.vts_n vts_ttn vm g f in
          inr (
            vts_ttn,
            title,
            part,
            search_result vm h n e number ∙ rw (found, name_part, run) refl,
            find_title_part-Found (int16 n) (int16 vm.state.pg_n) 0 h.vts_ptt_srpt (vts_ttn, part)
                found,
            first,
          )
    ]
