-- ===== src/Vm/Chapters.antt =====
-- vm_get_current_title_part of vm/vm.c: the chapter that is being played.
use libdvdnav.Prelude.{
  Bool, true, false, ◌&&◌, ℕ, zero, suc, ◌+◌, ◌-◌, ◌≡◌, ◌⊎◌, inl, inr, refl, sym, ◌∙◌, ap, subst,
  arith, Option, some, none, List, [], ◌∷◌, get_elem?,
}
use libdvdnav.Prelude.Int.{ℤ, pos, int_eqb, int_ltb}
use libdvdnav.Vm.Disc.{PttInfo}
use libdvdnav.Vm.Lookup.{between, find_part}

-- Chapter `n` of a title, from 0, is the one that program `pg` of program chain `pgc` is in: it starts
-- there, or it starts at an earlier program and the next one starts later in this chain.
pub data IsChapter (pgc pg : ℤ) (ptts : List PttInfo) (n : ℕ) : Type 0 where
  starts :
      (ptt : PttInfo)
      → get_elem? ptts n ≡ some ptt
      → int_eqb (pos ptt.pgcn) pgc ≡ true
      → int_eqb (pos ptt.pgn) pg ≡ true
      → IsChapter pgc pg ptts n
  goes_on :
      (ptt next : PttInfo)
      → get_elem? ptts n ≡ some ptt
      → get_elem? ptts (n + 1) ≡ some next
      → int_ltb (pos ptt.pgn) pg ≡ true
      → int_eqb (pos next.pgcn) pgc ≡ true
      → int_ltb pg (pos next.pgn) ≡ true
      → IsChapter pgc pg ptts n

and-cases : (a b : Bool) → ((a ≡ true) × (b ≡ true) × ((a && b) ≡ true)) ⊎ ((a && b) ≡ false)
and-cases true true = inl (refl, refl, refl)
and-cases true false = inr refl
and-cases false b = inr refl

-- What stands before part `part` of the title.
unfoldable Before : List PttInfo → ℕ → Option PttInfo → Type 0
Before all part none = part ≡ 0
Before all part (some ptt) = (q : ℕ) × (part ≡ suc q) × (get_elem? all q ≡ some ptt)

module _ (pgc pg : ℤ) (all : List PttInfo) where
  goes_on_here :
      (part n : ℕ) (before : Option PttInfo) (ptt : PttInfo)
      → Before all part before
      → get_elem? all part ≡ some ptt
      → int_eqb (pos ptt.pgcn) pgc ≡ true
      → between pg before ptt ≡ true
      → part - 1 ≡ n
      → IsChapter pgc pg all n
  unfolding between Before
  goes_on_here part n none ptt stands here chain inside e = absurd (cc)
  goes_on_here part n (some last) ptt (q, up, there) here chain inside e =
      let (later, earlier) = both _ _ inside in
      goes_on last ptt (ap (get_elem? all) (omega arith) ∙ there)
        (ap (get_elem? all) (omega arith) ∙ here) earlier chain later
    where
      both : (a b : Bool) → (a && b) ≡ true → (a ≡ true) × (b ≡ true)
      both true true h = (refl, refl)
      both true false h = absurd (cc)
      both false b h = absurd (cc)

  -- The rest of the title from part `part` on.
  Rest : ℕ → List PttInfo → Type 0
  Rest part ptts = (i : ℕ) → get_elem? ptts i ≡ get_elem? all (part + i)

  move_on :
      (part : ℕ) (ptt : PttInfo) (ptts : List PttInfo)
      → Rest part (ptt ∷ ptts)
      → Rest (part + 1) ptts
  unfolding Rest
  move_on part ptt ptts rest i =
      let same : part + suc i ≡ part + 1 + i = omega arith in rest (suc i) ∙ ap (get_elem? all) same

  just_passed :
      (part : ℕ) (ptt : PttInfo) → get_elem? all part ≡ some ptt → Before all (part + 1) (some ptt)
  unfolding Before
  just_passed part ptt here = (part, omega arith, here)

  find_part-IsChapter :
      (part : ℕ) (before : Option PttInfo) (ptts : List PttInfo) (n : ℕ)
      → Rest part ptts
      → Before all part before
      → find_part pgc pg part before ptts ≡ some n
      → IsChapter pgc pg all n
  unfolding find_part Rest
  find_part-IsChapter part before [] n rest stands e = absurd (cc)
  find_part-IsChapter part before (ptt ∷ ptts) n rest stands e =
      let at : part + 0 ≡ part = omega arith in
      let here : get_elem? all part ≡ some ptt = ap (get_elem? all) (sym at) ∙ sym (rest 0) in
      elim (and-cases (int_eqb (pos ptt.pgcn) pgc) (int_eqb (pos ptt.pgn) pg)) [
        | inl (chain, program, test) ↦
            let same : part ≡ n = (let found = rw test at e in cc) in
            starts ptt (ap (get_elem? all) (sym same) ∙ here) chain program
        | inr test ↦ elim (and-cases (int_eqb (pos ptt.pgcn) pgc) (between pg before ptt)) [
          | inl (chain, inside, test') ↦
              let same : part - 1 ≡ n = (let found = rw (test, test') at e in cc) in
              goes_on_here part n before ptt stands here chain inside same
          | inr test' ↦
              find_part-IsChapter (part + 1) (some ptt) ptts n (move_on part ptt ptts rest)
                (just_passed part ptt here) (rw (test, test') at e)
        ]
      ]

  find_part_misses :
      (part : ℕ) (before : Option PttInfo) (ptts : List PttInfo)
      → find_part pgc pg part before ptts ≡ none
      → (i : ℕ) (ptt : PttInfo) → get_elem? ptts i ≡ some ptt
      → (int_eqb (pos ptt.pgcn) pgc && int_eqb (pos ptt.pgn) pg) ≡ false
  unfolding find_part
  find_part_misses part before [] e i u f = absurd (cc)
  find_part_misses part before (ptt ∷ ptts) e i u f =
      elim (and-cases (int_eqb (pos ptt.pgcn) pgc) (int_eqb (pos ptt.pgn) pg)) [
        | inl (chain, program, test) ↦ let found = rw test at e in absurd (cc)
        | inr test ↦ elim (and-cases (int_eqb (pos ptt.pgcn) pgc) (between pg before ptt)) [
          | inl (chain, inside, test') ↦ let found = rw (test, test') at e in absurd (cc)
          | inr test' ↦
              first_or_later i u test
                (find_part_misses (part + 1) (some ptt) ptts (rw (test, test') at e)) f
        ]
      ]
    where
      first_or_later :
          (i : ℕ) (u : PttInfo)
          → (int_eqb (pos ptt.pgcn) pgc && int_eqb (pos ptt.pgn) pg) ≡ false
          → ((j : ℕ) (v : PttInfo)
              → get_elem? ptts j ≡ some v
              → (int_eqb (pos v.pgcn) pgc && int_eqb (pos v.pgn) pg) ≡ false)
          → get_elem? (ptt ∷ ptts) i ≡ some u
          → (int_eqb (pos u.pgcn) pgc && int_eqb (pos u.pgn) pg) ≡ false
      first_or_later zero u test later g =
          subst (λ (v : PttInfo). (int_eqb (pos v.pgcn) pgc && int_eqb (pos v.pgn) pg) ≡ false) (cc)
            test
      first_or_later (suc j) u test later g = later j u g

-- A whole title is searched from its first chapter on.
pub find_whole :
    (pgc pg : ℤ) (ptts : List PttInfo) (n : ℕ)
    → find_part pgc pg 0 none ptts ≡ some n
    → IsChapter pgc pg ptts n
unfolding Rest Before
find_whole pgc pg ptts n e =
    find_part-IsChapter pgc pg ptts 0 none ptts n (λ i. ap (get_elem? ptts) (start i)) refl e
  where
    start : (i : ℕ) → i ≡ 0 + i
    start i = omega arith

pub whole_misses :
    (pgc pg : ℤ) (ptts : List PttInfo)
    → find_part pgc pg 0 none ptts ≡ none
    → (i : ℕ) (ptt : PttInfo) → get_elem? ptts i ≡ some ptt
    → (int_eqb (pos ptt.pgcn) pgc && int_eqb (pos ptt.pgn) pg) ≡ false
whole_misses pgc pg ptts e = find_part_misses pgc pg ptts 0 none ptts e
