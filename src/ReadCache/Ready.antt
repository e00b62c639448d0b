-- ===== src/ReadCache/Ready.antt =====
-- dvdnav_pre_cache_blocks of src/read_cache.c keeps the invariant of the cache.
use libdvdnav.Prelude.{
  Bool, Option-cases, true, false, ℕ, ◌+◌, ◌^◌, ◌<◌, ◌≤◌, ◌≡◌, ◌≢◌, ◌⊎◌, inl, inr, refl, sym, subst,
  arith, Option, none, some, some_inj, List, get_elem?, length-set, lt_of_get_elem?,
}
use libdvdnav.ReadCache.State.{Chunk, Store, aligned, block_at}
use libdvdnav.ReadCache.Allocate.{
  with_buffer, choose_chunk, assign, use_chunk, dvdnav_pre_cache_blocks,
}
use libdvdnav.ReadCache.Sound.{Loaded, ChunkIsSound, Apart, BuffersAreApart, StoreIsSound}
use libdvdnav.ReadCache.Kept.{set-BuffersAreApart}
use libdvdnav.ReadCache.Preserve.{get_elem?_of_set}
use libdvdnav.ReadCache.Reserve.{Chosen, choose_chunk_lem, Fresh}

aligned_bounds : (base : ℕ) → (base < aligned base) × (aligned base ≤ base + 2048)
unfolding aligned
aligned_bounds base = (omega arith, omega arith)

has_buffer_some :
    (o : Option ℕ) → (elim o [ none ↦ false | some _ ↦ true ]) ≡ true → (b : ℕ) × (o ≡ some b)
has_buffer_some none h = absurd (cc)
has_buffer_some (some b) h = (b, refl)

module _ {A : Type 0} (disc : ℕ → A) (memory : ℕ → A) where
  assign-Loaded :
      (sector block_count buffer : ℕ) (v : Chunk)
      → block_count < 2 ^ 31
      → v.cache_buffer ≡ some buffer
      → block_count ≤ v.cache_malloc_size
      → Loaded disc memory (assign sector block_count v)
  unfolding assign
  assign-Loaded sector block_count buffer v small placed fits = record {
    buffer = buffer;
    placed = placed;
    fits = fits;
    small = small;
    filled = inr (0, refl, omega arith, λ k h. absurd (omega (arith, h)));
  }

  Chosen-Loaded :
      (base sector block_count u : ℕ) (v : Chunk) (chunks : List Chunk)
      → block_count < 2 ^ 31
      → Chosen base block_count chunks u v
      → Loaded disc memory (assign sector block_count v)
  unfolding with_buffer
  Chosen-Loaded base sector block_count u v chunks small chosen = elim chosen.result [
    | inl (same, fits, full) ↦
        let (b, placed) = has_buffer_some chosen.was.cache_buffer full in
        subst (λ x. Loaded disc memory (assign sector block_count x)) (sym same)
          (assign-Loaded sector block_count b chosen.was small placed fits)
    | inr (unfit, size, grown, fits) ↦
        subst (λ x. Loaded disc memory (assign sector block_count x)) (sym grown)
          (assign-Loaded sector block_count (aligned base) (with_buffer base size chosen.was) small
            refl fits)
  ]

-- The new buffer against another one.
Chosen-Apart :
    (base block_count u : ℕ) (v : Chunk) (chunks : List Chunk)
    → BuffersAreApart chunks
    → Fresh base block_count chunks
    → choose_chunk base block_count chunks ≡ some (u, v)
    → Chosen base block_count chunks u v
    → (j : ℕ) (d : Chunk) (a b : ℕ) → u ≢ j
    → get_elem? chunks j ≡ some d
    → v.cache_buffer ≡ some a
    → d.cache_buffer ≡ some b
    → Apart a v.cache_malloc_size b d.cache_malloc_size
unfolding with_buffer
Chosen-Apart base block_count u v chunks apart fresh found chosen j d a b ne listed at_a at_b =
    elim chosen.result [
      | inl (same, fits, full) ↦
          subst (λ x. Apart a x.cache_malloc_size b d.cache_malloc_size) (sym same)
            (apart u j chosen.was d a b ne chosen.listed listed
              (subst (λ x. x.cache_buffer ≡ some a) same at_a) at_b)
      | inr (unfit, size, grown, fits) ↦
          let here : aligned base ≡ a =
            some_inj (aligned base) a (subst (λ x. x.cache_buffer ≡ some a) grown at_a) in
          clear here (fresh u v unfit found j d b ne listed at_b)
    ]
  where
    clear :
        {a : ℕ}
        → aligned base ≡ a
        → (block_at base (v.cache_malloc_size + 1) ≤ b) ⊎ (block_at b d.cache_malloc_size ≤ base)
        → Apart a v.cache_malloc_size b d.cache_malloc_size
    clear here (inl below) = inl (omega (arith, below, here, aligned_bounds base))
    clear here (inr above) = inr (omega (arith, above, here, aligned_bounds base))

-- The unit gets a chunk, and the cache stays sound.
pub dvdnav_pre_cache_blocks-StoreIsSound :
    {A : Type 0} (disc : ℕ → A) (use_read_ahead : Bool) (base sector block_count : ℕ) (s : Store A)
    → StoreIsSound disc s
    → block_count < 2 ^ 31
    → Fresh base block_count s.cache.chunk
    → StoreIsSound disc (record s {
      cache = dvdnav_pre_cache_blocks use_read_ahead base s.cache sector block_count;
    })
unfolding dvdnav_pre_cache_blocks use_chunk assign
dvdnav_pre_cache_blocks-StoreIsSound disc false base sector block_count s h small fresh = h
dvdnav_pre_cache_blocks-StoreIsSound disc true base sector block_count s h small fresh =
    elim (Option-cases (choose_chunk base block_count s.cache.chunk)) [
      | inl refused ↦ rw (refused) h
      | inr ((u, v), found) ↦
          let chosen : Chosen base block_count s.cache.chunk u v =
            choose_chunk_lem base block_count s.cache.chunk u v found in
          rw (found) (record {
            sound = λ i c listed.
                elim (get_elem?_of_set s.cache.chunk u i (assign sector block_count v) c listed) [
                  | inl (here, is_new) ↦ subst (ChunkIsSound disc s.memory) (sym is_new) (λ valid.
                      Chosen-Loaded disc s.memory base sector block_count u v s.cache.chunk small
                        chosen)
                  | inr (there, listed') ↦ h.sound i c listed'
                ];
            apart =
                set-BuffersAreApart s.cache.chunk u (assign sector block_count v) h.apart
                  (Chosen-Apart base block_count u v s.cache.chunk h.apart fresh found chosen);
            at_current = omega (
              arith,
              lt_of_get_elem? s.cache.chunk u chosen.was chosen.listed,
              length-set s.cache.chunk u (assign sector block_count v),
            );
            ahead = h.ahead;
          })
    ]
