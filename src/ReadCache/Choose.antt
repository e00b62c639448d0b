-- ===== src/ReadCache/Choose.antt =====
-- The chunk that dvdnav_pre_cache_blocks of src/read_cache.c chooses.
use libdvdnav.Prelude.{
  some_inj, Bool, Bool-cases, true, false, ◌&&◌, leb, if◌then◌else◌, ℕ, suc, ◌+◌, ◌≡◌, ◌⊎◌, inl,
  inr, refl, subst, arith, some, List, [], ◌∷◌, get_elem?,
}
use libdvdnav.ReadCache.State.{Chunk}
use libdvdnav.ReadCache.Allocate.{
  Choice, unused, has_buffer, larger, smaller, best_fit, largest, first_empty,
}

-- A chunk of the list, with its position.
abbrev pub Listed : (i : ℕ) → List Chunk → (u : ℕ) → Chunk → Type 0
Listed i chunks u c = (j : ℕ) × (u ≡ i + j) × (get_elem? chunks j ≡ some c)

next_Listed :
    (i u : ℕ) (x c : Chunk) (chunks : List Chunk)
    → Listed (suc i) chunks u c
    → Listed i (x ∷ chunks) u c
next_Listed i u x c chunks (j, e, listed) = (suc j, omega (arith, e), listed)

first_Listed : (i : ℕ) (c : Chunk) (chunks : List Chunk) → Listed i (c ∷ chunks) i c
first_Listed i c chunks = (0, omega arith, refl)

-- A choice that a test allows: the one before, or one of the list.
abbrev pub FromList :
    (allowed : Chunk → Bool) (i : ℕ) → List Chunk → (use_ : Choice) (u : ℕ) → Chunk → Type 0
FromList allowed i chunks use_ u c =
    (use_ ≡ some (u, c)) ⊎ (Listed i chunks u c × (allowed c ≡ true))

more_FromList :
    (allowed : Chunk → Bool) (i : ℕ) (x : Chunk) (chunks : List Chunk) (use_ : Choice) (b : Bool)
    (u : ℕ) (c : Chunk)
    → (b ≡ true → allowed x ≡ true)
    → FromList allowed (suc i) chunks (if b then some (i, x) else use_) u c
    → FromList allowed i (x ∷ chunks) use_ u c
more_FromList allowed i x chunks use_ b u c test (inr (listed, ok)) =
    inr (next_Listed i u x c chunks listed, ok)
more_FromList allowed i x chunks use_ true u c test (inl here) =
    let chosen : ℕ × Chunk = (u, c) in
    let same : (i, x) ≡ chosen = some_inj (i, x) chosen here in
    inr (
      subst (λ p. Listed i (x ∷ chunks) p.0 p.1) same (first_Listed i x chunks),
      subst (λ p. allowed p.1 ≡ true) same (test refl),
    )
more_FromList allowed i x chunks use_ false u c test (inl before) = inl before

-- The test of the first search.
abbrev pub fits_unused : (block_count : ℕ) → Chunk → Bool
fits_unused block_count c = unused c && leb block_count c.cache_malloc_size

pub best_fit-FromList :
    (block_count i : ℕ) (chunks : List Chunk) (use_ : Choice) (u : ℕ) (c : Chunk)
    → best_fit block_count i chunks use_ ≡ some (u, c)
    → FromList (fits_unused block_count) i chunks use_ u c
unfolding best_fit larger
best_fit-FromList block_count i [] use_ u c e = inl e
best_fit-FromList block_count i (x ∷ chunks) use_ u c e =
    more_FromList (fits_unused block_count) i x chunks use_
      (unused x && leb block_count x.cache_malloc_size && larger use_ x) u c
      (λ h. ground (arith, h)) (best_fit-FromList block_count (suc i) chunks _ u c e)

pub largest-FromList :
    (i : ℕ) (chunks : List Chunk) (use_ : Choice) (u : ℕ) (c : Chunk)
    → largest i chunks use_ ≡ some (u, c)
    → FromList unused i chunks use_ u c
unfolding largest smaller
largest-FromList i [] use_ u c e = inl e
largest-FromList i (x ∷ chunks) use_ u c e =
    more_FromList unused i x chunks use_ (unused x && smaller use_ x) u c (λ h. ground (arith, h))
      (largest-FromList (suc i) chunks _ u c e)

pub first_empty-Listed :
    (i : ℕ) (chunks : List Chunk) (u : ℕ) (c : Chunk)
    → first_empty i chunks ≡ some (u, c)
    → Listed i chunks u c × (has_buffer c ≡ false)
unfolding first_empty
first_empty-Listed i [] u c e = absurd (cc)
first_empty-Listed i (x ∷ chunks) u c e = elim (Bool-cases (has_buffer x)) [
  | inl full ↦
      let rest : _ = first_empty-Listed (suc i) chunks u c (rw (full) at e) in
      (next_Listed i u x c chunks rest.0, rest.1)
  | inr bare ↦
      let chosen : ℕ × Chunk = (u, c) in
      let same : (i, x) ≡ chosen = some_inj (i, x) chosen (rw (bare) at e) in
      (
        subst (λ p. Listed i (x ∷ chunks) p.0 p.1) same (first_Listed i x chunks),
        subst (λ p. has_buffer p.1 ≡ false) same bare,
      )
]
