-- ===== src/ReadCache/Tests.antt =====
-- Runs of src/read_cache.c on a small disc.
use libdvdnav.Prelude.{
  true, false, ℕ, ◌≡◌, ◌↔◌, inl, inr, refl, ap, sym, ◌∙◌, arith, Option, none, some, some_inj, List,
  [], ◌∷◌, replicate, get_elem?,
}
use libdvdnav.Prelude.Int.{ℤ, pos, negsuc}
use libdvdnav.Prelude.Program.{value}
use libdvdnav.ReadCache.State.{
  Chunk, Cache, Store, dvdnav_read_cache_new, dvdnav_read_cache_clear, clear_chunk, empty_chunk,
  block_len, aligned,
}
use libdvdnav.ReadCache.Allocate.{
  dvdnav_pre_cache_blocks, use_chunk, choose_chunk, fit_or_grow, grow_buffer, new_buffer, best_fit,
  larger, largest, smaller, first_empty, with_buffer, first_size, assign,
}
use libdvdnav.ReadCache.Preserve.{get_elem?_of_set}
use libdvdnav.ReadCache.Read.{dvdnav_read_cache_block}
use libdvdnav.ReadCache.Memory.{sectors}
use libdvdnav.ReadCache.Sound.{Reads, Complete, StoreIsSound}
use libdvdnav.ReadCache.Reserve.{Fresh, in_use, dvdnav_pre_cache_blocks-in_use}
use libdvdnav.ReadCache.Serve.{OutsideOfChunks}
use libdvdnav.ReadCache.Start.{new_chunk_bare, dvdnav_read_cache_new-StoreIsSound}
use libdvdnav.ReadCache.Ready.{dvdnav_pre_cache_blocks-StoreIsSound}
use libdvdnav.ReadCache.Transparent.{
  dvdnav_read_cache_block-StoreIsSound, dvdnav_read_cache_block_lem,
}
use libdvdnav.ReadCache.Held.{BlocksAreKept, dvdnav_read_cache_block-BlocksAreKept}
use libdvdnav.ReadCache.Refuse.{choose_chunk_refuses_iff}
use libdvdnav.ReadCache.Returned.{GivesBack, dvdnav_free_cache_block-read}

abbrev garbage : Chunk
garbage = record {
  cache_buffer = some 77;
  cache_buffer_base = 3;
  cache_start_sector = 9;
  cache_read_count = negsuc 4;
  cache_block_count = 12;
  cache_malloc_size = 1;
  cache_valid = true;
  usage_count = pos 6;
}

-- Sector `n` of the disc holds the number `n`.
abbrev disc : ℕ → ℕ
disc n = n

abbrev first_store : Store ℕ
first_store = record { cache = dvdnav_read_cache_new (replicate 10 garbage); memory = λ a. 0 }

-- A unit of eight blocks at sector 100 is to come.
abbrev next_store : Store ℕ
next_store = record first_store {
  cache = dvdnav_pre_cache_blocks true 5000 first_store.cache 100 8;
}

abbrev drive : (start size : ℕ) → Option (List ℕ)
drive start size = some (sectors disc start size)

drive-Complete : Complete disc drive
drive-Complete start size = refl

drive-Reads : Reads disc drive
drive-Reads start size = inr (size, omega arith, refl)

first_store-StoreIsSound : StoreIsSound disc first_store
first_store-StoreIsSound =
    dvdnav_read_cache_new-StoreIsSound disc (replicate 10 garbage) (λ a. 0) refl

first_store-Fresh : Fresh 5000 8 first_store.cache.chunk
first_store-Fresh u v unfit found i c a ne listed at_a =
    absurd (cc (new_chunk_bare (replicate 10 garbage) i c listed, at_a))

next_store-StoreIsSound : StoreIsSound disc next_store
next_store-StoreIsSound =
    dvdnav_pre_cache_blocks-StoreIsSound disc true 5000 100 8 first_store first_store-StoreIsSound
      (omega arith) first_store-Fresh

next_store-OutsideOfChunks : OutsideOfChunks disc 2000000 1 next_store.cache.chunk
unfolding dvdnav_pre_cache_blocks use_chunk choose_chunk fit_or_grow grow_buffer new_buffer best_fit
    larger largest smaller first_empty with_buffer first_size aligned assign dvdnav_read_cache_new
    dvdnav_read_cache_clear clear_chunk empty_chunk
next_store-OutsideOfChunks i c a listed at_a =
    elim (get_elem?_of_set first_store.cache.chunk 0 i _ c listed) [
      | inl (here, is_new) ↦
          let at_6144 : 6144 ≡ a = some_inj 6144 a (ap (λ x. x.cache_buffer) (sym is_new) ∙ at_a) in
          inl (omega (arith, at_6144, ap (λ x. x.cache_malloc_size) is_new))
      | inr (there, old) ↦ absurd (cc (new_chunk_bare (replicate 10 garbage) i c old, at_a))
    ]

dvdnav_read_cache_block_lem_example :
    (at : ℕ) × (s' : Store ℕ) × (dvdnav_read_cache_block drive true 103 1 2000000 next_store
      ≡ value (pos block_len, at) s')
    × (s'.memory at ≡ 103)
dvdnav_read_cache_block_lem_example =
    dvdnav_read_cache_block_lem disc drive true 103 2000000 next_store drive-Complete
      next_store-StoreIsSound

dvdnav_read_cache_block-StoreIsSound_example :
    (result : ℤ × ℕ) × (s' : Store ℕ) × (dvdnav_read_cache_block drive true 103 1 2000000 next_store
      ≡ value result s')
    × StoreIsSound disc s'
dvdnav_read_cache_block-StoreIsSound_example =
    dvdnav_read_cache_block-StoreIsSound disc drive true 103 1 2000000 next_store drive-Reads
      next_store-StoreIsSound next_store-OutsideOfChunks

dvdnav_pre_cache_blocks-StoreIsSound_example :
    StoreIsSound disc
      (record first_store { cache = dvdnav_pre_cache_blocks true 5000 first_store.cache 100 8 })
dvdnav_pre_cache_blocks-StoreIsSound_example =
    dvdnav_pre_cache_blocks-StoreIsSound disc true 5000 100 8 first_store first_store-StoreIsSound
      (omega arith) first_store-Fresh

dvdnav_read_cache_block-BlocksAreKept_example :
    (result : ℤ × ℕ) × (s' : Store ℕ) × (dvdnav_read_cache_block drive true 103 1 2000000 next_store
      ≡ value result s')
    × BlocksAreKept disc next_store s'.memory
dvdnav_read_cache_block-BlocksAreKept_example =
    dvdnav_read_cache_block-BlocksAreKept disc drive drive-Reads next_store next_store-StoreIsSound
      true 103 1 2000000 next_store-OutsideOfChunks

-- One chunk that the application has a block of.
abbrev busy_chunk : Chunk
busy_chunk = record garbage { usage_count = pos 1; cache_buffer = some 2048 }

abbrev busy_cache : Cache
busy_cache = record first_store.cache { chunk = busy_chunk ∷ garbage ∷ [] }

dvdnav_pre_cache_blocks-in_use_example :
    get_elem? (dvdnav_pre_cache_blocks true 5000 busy_cache 100 8).chunk 0 ≡ some busy_chunk
dvdnav_pre_cache_blocks-in_use_example =
    dvdnav_pre_cache_blocks-in_use true 5000 busy_cache 100 8 0 busy_chunk refl refl

choose_chunk_refuses_iff_example :
    (choose_chunk 5000 8 (busy_chunk ∷ []) ≡ none)
    ↔ ((i : ℕ) (c : Chunk) → get_elem? (busy_chunk ∷ []) i ≡ some c → in_use c ≡ true)
choose_chunk_refuses_iff_example = choose_chunk_refuses_iff 5000 8 (busy_chunk ∷ [])

next_store_live : next_store.cache.freeing ≡ false
unfolding dvdnav_pre_cache_blocks use_chunk choose_chunk fit_or_grow grow_buffer new_buffer best_fit
    larger largest smaller first_empty with_buffer first_size aligned assign dvdnav_read_cache_new
    dvdnav_read_cache_clear clear_chunk empty_chunk
next_store_live = refl

dvdnav_free_cache_block-read_example :
    (result : ℤ × ℕ) × (s' : Store ℕ) × (dvdnav_read_cache_block drive true 103 1 2000000 next_store
      ≡ value result s')
    × GivesBack next_store result.1 s'
dvdnav_free_cache_block-read_example =
    dvdnav_free_cache_block-read disc drive next_store next_store-StoreIsSound next_store_live true
      103 1 2000000 (omega arith) next_store-OutsideOfChunks
