-- ===== src/ReadCache/Sound.antt =====
-- The invariant of the read cache of src/read_cache.c.
use libdvdnav.Prelude.{
  true, ℕ, ◌+◌, ◌^◌, ◌<◌, ◌≤◌, ◌≡◌, ◌≢◌, ◌⊎◌, Option, none, some, List, length, get_elem?,
}
use libdvdnav.Prelude.Int.{pos, negsuc}
use libdvdnav.ReadCache.State.{Chunk, Store, block_at, read_ahead_size_min, read_ahead_size_max}
use libdvdnav.ReadCache.Memory.{sectors}

module _ {A : Type 0} (disc : ℕ → A) where
  -- The first `n` blocks of a chunk are those of the disc.
  abbrev pub Filled : (memory : ℕ → A) (buffer start n : ℕ) → Type 0
  Filled memory buffer start n = (k : ℕ) → k < n → memory (block_at buffer k) ≡ disc (start + k)

  -- A valid chunk: its unit fits into the buffer, and what was read is from the disc. The count is
  -- -1 after a failed first read.
  pub record Loaded (memory : ℕ → A) (c : Chunk) : Type 0 where
    pub buffer : ℕ
    pub placed : c.cache_buffer ≡ some buffer
    pub fits : c.cache_block_count ≤ c.cache_malloc_size
    pub small : c.cache_block_count < 2 ^ 31
    pub filled :
        (c.cache_read_count ≡ negsuc 0)
        ⊎ ((n : ℕ) × (c.cache_read_count ≡ pos n)
            × (n ≤ c.cache_block_count)
            × Filled memory buffer c.cache_start_sector n)

  abbrev pub ChunkIsSound : (memory : ℕ → A) → Chunk → Type 0
  ChunkIsSound memory c = c.cache_valid ≡ true → Loaded memory c

  -- libdvdread's DVDReadBlocks fails, or reads the first blocks of what it is asked for.
  abbrev pub Reads : ((start size : ℕ) → Option (List A)) → Type 0
  Reads dvd_read_blocks =
      (start size : ℕ)
      → (dvd_read_blocks start size ≡ none)
        ⊎ ((n : ℕ) × (n ≤ size) × (dvd_read_blocks start size ≡ some (sectors disc start n)))

  -- It never fails, and reads all it is asked for.
  abbrev pub Complete : ((start size : ℕ) → Option (List A)) → Type 0
  Complete dvd_read_blocks =
      (start size : ℕ) → dvd_read_blocks start size ≡ some (sectors disc start size)

-- Two buffers of `m` and `n` blocks.
abbrev pub Apart : (a m b n : ℕ) → Type 0
Apart a m b n = (block_at a m ≤ b) ⊎ (block_at b n ≤ a)

abbrev pub BuffersAreApart : List Chunk → Type 0
BuffersAreApart chunks =
    (i j : ℕ) (c d : Chunk) (a b : ℕ)
    → i ≢ j
    → get_elem? chunks i ≡ some c
    → get_elem? chunks j ≡ some d
    → c.cache_buffer ≡ some a
    → d.cache_buffer ≡ some b
    → Apart a c.cache_malloc_size b d.cache_malloc_size

abbrev pub ReadAheadIsBounded : ℕ → Type 0
ReadAheadIsBounded n = (read_ahead_size_min ≤ n) × (n ≤ read_ahead_size_max)

pub record StoreIsSound {A : Type 0} (disc : ℕ → A) (s : Store A) : Type 0 where
  pub sound :
      (i : ℕ) (c : Chunk) → get_elem? s.cache.chunk i ≡ some c → ChunkIsSound disc s.memory c
  pub apart : BuffersAreApart s.cache.chunk
  pub at_current : s.cache.current < length s.cache.chunk
  pub ahead : ReadAheadIsBounded s.cache.read_ahead_size
