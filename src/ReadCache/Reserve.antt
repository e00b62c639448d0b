-- ===== src/ReadCache/Reserve.antt =====
-- dvdnav_pre_cache_blocks of src/read_cache.c keeps the invariant and the chunks in use.
use libdvdnav.Prelude.{
  Bool, Option-cases, true, false, not, ◌&&◌, ℕ, ◌+◌, ◌≤◌, ◌≡◌, ◌≢◌, ◌⊎◌, inl, inr, refl, ap, sym,
  subst, ◌∙◌, arith, none, some, some_inj, List, get_elem?, get_elem?-set_ne,
}
use libdvdnav.Prelude.Int.{pos, int_eqb}
use libdvdnav.ReadCache.State.{Chunk, Cache, block_at}
use libdvdnav.ReadCache.Allocate.{
  Choice, unused, has_buffer, best_fit, largest, first_empty, with_buffer, first_size, new_buffer,
  grow_buffer, fit_or_grow, choose_chunk, assign, use_chunk, dvdnav_pre_cache_blocks,
}
use libdvdnav.ReadCache.Choose.{
  Listed, FromList, fits_unused, best_fit-FromList, largest-FromList, first_empty-Listed,
}

-- Blocks of the chunk are with the application.
abbrev pub in_use : Chunk → Bool
in_use c = has_buffer c && not (int_eqb c.usage_count (pos 0))

-- The chunk that was chosen, and the buffer it has then.
pub record Chosen (base block_count : ℕ) (chunks : List Chunk) (u : ℕ) (v : Chunk) : Type 0 where
  pub was : Chunk
  pub listed : get_elem? chunks u ≡ some was
  pub idle : in_use was ≡ false
  pub result :
      ((v ≡ was) × (block_count ≤ was.cache_malloc_size) × (has_buffer was ≡ true))
      ⊎ ((best_fit block_count 0 chunks none ≡ none)
          × (size : ℕ) × (v ≡ with_buffer base size was)
          × (block_count ≤ size))

from_first :
    (chunks : List Chunk) (u : ℕ) (c : Chunk) → Listed 0 chunks u c → get_elem? chunks u ≡ some c
from_first chunks u c (j, e, listed) = let same : u ≡ j = omega (arith, e) in rw (same) listed

from_none :
    (allowed : Chunk → Bool) (chunks : List Chunk) (u : ℕ) (c : Chunk)
    → FromList allowed 0 chunks none u c
    → (get_elem? chunks u ≡ some c) × (allowed c ≡ true)
from_none allowed chunks u c (inl before) = absurd (cc)
from_none allowed chunks u c (inr (listed, ok)) = (from_first chunks u c listed, ok)

choose_grown :
    (base block_count : ℕ) (chunks : List Chunk) (u : ℕ) (v : Chunk) (largest_one : Choice)
    → best_fit block_count 0 chunks none ≡ none
    → largest 0 chunks none ≡ largest_one
    → grow_buffer base block_count chunks largest_one ≡ some (u, v)
    → Chosen base block_count chunks u v
unfolding grow_buffer new_buffer first_size
choose_grown base block_count chunks u v (some (i, c)) fit e h =
    let chosen : ℕ × Chunk = (u, v) in
    let same : (i, with_buffer base block_count c) ≡ chosen =
      some_inj (i, with_buffer base block_count c) chosen h in
    let found : _ = from_none unused chunks i c (largest-FromList 0 chunks none i c e) in
    subst (λ p. Chosen base block_count chunks p.0 p.1) same
      (record {
        was = c;
        listed = found.0;
        idle = ground (arith, found.1);
        result = inr (fit, block_count, refl, omega arith);
      })
choose_grown base block_count chunks u v none fit e h = elim (Option-cases (first_empty 0 chunks)) [
  | inl full ↦ absurd (cc (rw (full) at h))
  | inr (p, found) ↦
      let chosen : ℕ × Chunk = (u, v) in
      let same : (p.0, with_buffer base (first_size block_count) p.1) ≡ chosen =
        some_inj (p.0, with_buffer base (first_size block_count) p.1) chosen (rw (found) at h) in
      let at_p : _ = first_empty-Listed 0 chunks p.0 p.1 found in
      subst (λ q. Chosen base block_count chunks q.0 q.1) same
        (record {
          was = p.1;
          listed = from_first chunks p.0 p.1 at_p.0;
          idle = ground (arith, at_p.1);
          result = inr (fit, first_size block_count, refl, ground arith);
        })
]

pub choose_chunk_lem :
    (base block_count : ℕ) (chunks : List Chunk) (u : ℕ) (v : Chunk)
    → choose_chunk base block_count chunks ≡ some (u, v)
    → Chosen base block_count chunks u v
unfolding choose_chunk fit_or_grow
choose_chunk_lem base block_count chunks u v h =
    elim (Option-cases (best_fit block_count 0 chunks none)) [
      | inl unfit ↦
          choose_grown base block_count chunks u v (largest 0 chunks none) unfit refl
            (rw (unfit) at h)
      | inr (p, found) ↦
          let chosen : ℕ × Chunk = (u, v) in
          let same : p ≡ chosen = some_inj p chosen (rw (found) at h) in
          let at_p : _ =
            from_none (fits_unused block_count) chunks p.0 p.1
              (best_fit-FromList block_count 0 chunks none p.0 p.1 found) in
          subst (λ q. Chosen base block_count chunks q.0 q.1) same
            (record {
              was = p.1;
              listed = at_p.0;
              idle = ground (arith, at_p.1);
              result = inl (refl, ground (arith, at_p.1), ground (arith, at_p.1));
            })
    ]

-- What the allocator returns lies apart from the buffers of the other chunks.
abbrev pub Fresh : (base block_count : ℕ) → List Chunk → Type 0
Fresh base block_count chunks =
    (u : ℕ) (v : Chunk)
    → best_fit block_count 0 chunks none ≡ none
    → choose_chunk base block_count chunks ≡ some (u, v)
    → (i : ℕ) (c : Chunk) (a : ℕ) → u ≢ i
    → get_elem? chunks i ≡ some c
    → c.cache_buffer ≡ some a
    → (block_at base (v.cache_malloc_size + 1) ≤ a) ⊎ (block_at a c.cache_malloc_size ≤ base)

-- A chunk in use stays as it is.
pub dvdnav_pre_cache_blocks-in_use :
    (use_read_ahead : Bool) (base : ℕ) (self : Cache) (sector block_count i : ℕ) (c : Chunk)
    → get_elem? self.chunk i ≡ some c
    → in_use c ≡ true
    → get_elem? (dvdnav_pre_cache_blocks use_read_ahead base self sector block_count).chunk i
      ≡ some c
unfolding dvdnav_pre_cache_blocks use_chunk
dvdnav_pre_cache_blocks-in_use false base self sector block_count i c listed busy = listed
dvdnav_pre_cache_blocks-in_use true base self sector block_count i c listed busy =
    elim (Option-cases (choose_chunk base block_count self.chunk)) [
      | inl refused ↦ rw (refused) listed
      | inr ((u, v), found) ↦
          let chosen : Chosen base block_count self.chunk u v =
            choose_chunk_lem base block_count self.chunk u v found in
          rw (found) (
            get_elem?-set_ne self.chunk u i (assign sector block_count v) (λ same.
              not_both c chosen.was busy chosen.idle (
                some_inj c chosen.was
                  (sym listed ∙ ap (get_elem? self.chunk) (sym same) ∙ chosen.listed)))
            ∙ listed)
    ]
  where
    not_both : (c d : Chunk) → in_use c ≡ true → in_use d ≡ false → c ≢ d
    not_both c d busy idle same = cc (busy, idle, ap in_use same)
