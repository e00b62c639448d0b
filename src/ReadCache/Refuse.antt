-- ===== src/ReadCache/Refuse.antt =====
-- When dvdnav_pre_cache_blocks of src/read_cache.c finds no chunk.
use libdvdnav.Prelude.{
  Bool, Bool-cases, Option-cases, true, false, ◌&&◌, ℕ, zero, suc, ◌≡◌, ◌↔◌, inl, inr, ap, arith,
  none, some, some_inj, List, [], ◌∷◌, get_elem?,
}
use libdvdnav.ReadCache.State.{Chunk}
use libdvdnav.ReadCache.Allocate.{
  unused, has_buffer, smaller, best_fit, largest, first_empty, new_buffer, grow_buffer, fit_or_grow,
  choose_chunk,
}
use libdvdnav.ReadCache.Reserve.{Chosen, choose_chunk_lem, in_use}

-- A test of every chunk of a list.
head_or_tail :
    (test : Chunk → Bool) (b : Bool) (x c : Chunk) (chunks : List Chunk) (j : ℕ)
    → test x ≡ b
    → ((k : ℕ) → get_elem? chunks k ≡ some c → test c ≡ b)
    → get_elem? (x ∷ chunks) j ≡ some c
    → test c ≡ b
head_or_tail test b x c chunks zero here rest listed = cc (here, ap test (some_inj x c listed))
head_or_tail test b x c chunks (suc j) here rest listed = rest j listed

largest-some : (i : ℕ) (chunks : List Chunk) (p : ℕ × Chunk) → ¬ (largest i chunks (some p) ≡ none)
unfolding largest
largest-some i [] p e = cc
largest-some i (c ∷ chunks) p e = elim (Bool-cases (unused c && smaller (some p) c)) [
  | inl new ↦ largest-some (suc i) chunks (i, c) (rw (new) at e)
  | inr old ↦ largest-some (suc i) chunks p (rw (old) at e)
]

largest-none :
    (i : ℕ) (chunks : List Chunk)
    → largest i chunks none ≡ none
    → (j : ℕ) (c : Chunk) → get_elem? chunks j ≡ some c
    → unused c ≡ false
unfolding largest smaller
largest-none i [] e j c listed = absurd (cc)
largest-none i (x ∷ chunks) e j c listed = elim (Bool-cases (unused x)) [
  | inl new ↦ absurd (largest-some (suc i) chunks (i, x) (rw (new) at e))
  | inr old ↦
      head_or_tail unused false x c chunks j old
        (λ k. largest-none (suc i) chunks (rw (old) at e) k c) listed
]

first_empty-none :
    (i : ℕ) (chunks : List Chunk)
    → first_empty i chunks ≡ none
    → (j : ℕ) (c : Chunk) → get_elem? chunks j ≡ some c
    → has_buffer c ≡ true
unfolding first_empty
first_empty-none i [] e j c listed = absurd (cc)
first_empty-none i (x ∷ chunks) e j c listed = elim (Bool-cases (has_buffer x)) [
  | inl full ↦
      head_or_tail has_buffer true x c chunks j full
        (λ k. first_empty-none (suc i) chunks (rw (full) at e) k c) listed
  | inr bare ↦ absurd (cc (rw (bare) at e))
]

refused_lem :
    (base block_count : ℕ) (chunks : List Chunk)
    → choose_chunk base block_count chunks ≡ none
    → (largest 0 chunks none ≡ none) × (first_empty 0 chunks ≡ none)
unfolding choose_chunk fit_or_grow grow_buffer new_buffer
refused_lem base block_count chunks h = elim (Option-cases (best_fit block_count 0 chunks none)) [
  | inl unfit ↦ elim (Option-cases (largest 0 chunks none)) [
    | inl busy ↦ elim (Option-cases (first_empty 0 chunks)) [
      | inl full ↦ (busy, full)
      | inr (p, found) ↦ absurd (cc (rw (unfit, busy, found) at h))
    ]
    | inr (p, found) ↦ absurd (cc (rw (unfit, found) at h))
  ]
  | inr (p, found) ↦ absurd (cc (rw (found) at h))
]

-- The search for a chunk fails exactly if the application holds blocks of every chunk.
pub choose_chunk_refuses_iff :
    (base block_count : ℕ) (chunks : List Chunk)
    → (choose_chunk base block_count chunks ≡ none)
      ↔ ((i : ℕ) (c : Chunk) → get_elem? chunks i ≡ some c → in_use c ≡ true)
choose_chunk_refuses_iff base block_count chunks = (all_busy, refuses)
  where
    all_busy :
        choose_chunk base block_count chunks ≡ none
        → (i : ℕ) (c : Chunk) → get_elem? chunks i ≡ some c
        → in_use c ≡ true
    all_busy h i c listed =
        let searches : _ = refused_lem base block_count chunks h in
        let busy : unused c ≡ false = largest-none 0 chunks searches.0 i c listed in
        let full : has_buffer c ≡ true = first_empty-none 0 chunks searches.1 i c listed in
        ground (arith, busy, full)

    refuses :
        ((i : ℕ) (c : Chunk) → get_elem? chunks i ≡ some c → in_use c ≡ true)
        → choose_chunk base block_count chunks ≡ none
    refuses busy = elim (Option-cases (choose_chunk base block_count chunks)) [
      | inl e ↦ e
      | inr ((u, v), found) ↦
          let chosen : Chosen base block_count chunks u v =
            choose_chunk_lem base block_count chunks u v found in
          absurd (cc (busy u chosen.was chosen.listed, chosen.idle))
    ]
