-- ===== src/ReadCache/Found.antt =====
-- The chunk that dvdnav_read_cache_block of src/read_cache.c finds has the sector.
use libdvdnav.Prelude.{
  some_inj, Bool-cases, true, ℕ, suc, ◌+◌, ◌≤◌, ◌≡◌, ◌⊎◌, inl, inr, refl, subst, arith, Option,
  none, some, List, [], ◌∷◌, get_elem?,
}
use libdvdnav.ReadCache.State.{Chunk, Cache}
use libdvdnav.ReadCache.Read.{reached, covers, find_chunk, look_in}

-- A chunk of the list that has the sectors.
pub record Covering (sector block_count u : ℕ) (chunks : List Chunk) : Type 0 where
  pub at_use : Chunk
  pub listed : get_elem? chunks u ≡ some at_use
  pub has : covers sector block_count at_use ≡ true

later :
    (sector block_count u v : ℕ) (c : Chunk) (chunks : List Chunk)
    → Covering sector block_count u chunks
    → v ≡ suc u
    → Covering sector block_count v (c ∷ chunks)
later sector block_count u v c chunks h e = record {
  at_use = h.at_use;
  listed = rw e h.listed;
  has = h.has;
}

find_chunk_lem :
    (sector block_count i : ℕ) (chunks : List Chunk) (use_ : Option ℕ) (u : ℕ)
    → find_chunk sector block_count i chunks use_ ≡ some u
    → (use_ ≡ some u) ⊎ ((j : ℕ) × (u ≡ i + j) × Covering sector block_count j chunks)
unfolding find_chunk
find_chunk_lem sector block_count i [] use_ u e = inl e
find_chunk_lem sector block_count i (c ∷ chunks) use_ u e =
    elim (Bool-cases (covers sector block_count c)) [
      | inl holds ↦
          elim (find_chunk_lem sector block_count (suc i) chunks (some i) u (rw (holds) at e)) [
            | inl here ↦ inr (0, ground arith, record { at_use = c; listed = refl; has = holds })
            | inr (j, e', found) ↦
                inr (suc j, omega arith, later sector block_count j (suc j) c chunks found refl)
          ]
      | inr fails ↦
          elim (find_chunk_lem sector block_count (suc i) chunks use_ u (rw (fails) at e)) [
            | inl before ↦ inl before
            | inr (j, e', found) ↦
                inr (suc j, omega arith, later sector block_count j (suc j) c chunks found refl)
          ]
    ]

pub look_in_lem :
    (sector block_count : ℕ) (self : Cache) (cur : Chunk) (u : ℕ)
    → get_elem? self.chunk self.current ≡ some cur
    → look_in sector block_count self cur ≡ some u
    → Covering sector block_count u self.chunk
unfolding look_in
look_in_lem sector block_count self cur u at_cur e =
    elim (Bool-cases (covers sector block_count cur)) [
      | inl holds ↦
          let here : self.current ≡ u = some_inj self.current u (rw (holds) at e) in
          record {
            at_use = cur;
            listed = subst (λ i. get_elem? self.chunk i ≡ some cur) here at_cur;
            has = holds;
          }
      | inr fails ↦ elim (find_chunk_lem sector block_count 0 self.chunk none u (rw (fails) at e)) [
        | inl before ↦ absurd (cc)
        | inr (j, e', found) ↦
            subst (λ i. Covering sector block_count i self.chunk) (omega (arith, e')) found
      ]
    ]

-- What the test says of a chunk.
pub covers_lem :
    (sector block_count : ℕ) (c : Chunk)
    → covers sector block_count c ≡ true
    → (c.cache_valid ≡ true)
      × (c.cache_start_sector ≤ sector)
      × (reached sector c.cache_start_sector c.cache_read_count ≡ true)
      × (sector + block_count ≤ c.cache_start_sector + c.cache_block_count)
covers_lem sector block_count c h = ground arith
