-- ===== src/ReadCache/State.antt =====
-- The chunks of src/read_cache.c, and the memory that their buffers lie in.
use libdvdnav.Prelude.{
  Bool, false, if◌then◌else◌, ◌==◌, ℕ, ◌+◌, ◌*◌, ◌/◌, Option, none, List, [], ◌∷◌, map,
}
use libdvdnav.Prelude.Int.{ℤ, pos}
use libdvdnav.Prelude.Program.{Program}

-- `read_cache_chunk_t`. `cache_buffer` is an address in bytes, `none` for NULL, and the counts that
-- can fall below 0 are integers. Sectors are at least 0.
pub record Chunk : Type 0 where
  pub cache_buffer : Option ℕ
  pub cache_buffer_base : ℕ
  pub cache_start_sector : ℕ
  pub cache_read_count : ℤ
  pub cache_block_count : ℕ
  pub cache_malloc_size : ℕ
  pub cache_valid : Bool
  pub usage_count : ℤ

-- `read_cache_t`. The lock is left out: an operation is one step.
pub record Cache : Type 0 where
  pub chunk : List Chunk
  pub current : ℕ
  pub freeing : Bool
  pub read_ahead_size : ℕ
  pub read_ahead_incr : ℕ
  pub last_sector : ℕ

-- The cache and the blocks of the memory, each under the address of its first byte.
pub record Store (A : Type 0) : Type 0 where
  pub cache : Cache
  pub memory : ℕ → A

abbrev pub ReadCache : Type 0 → Type 0 → Type 0
ReadCache A B = Program (Store A) B

abbrev pub read_cache_chunks : ℕ
read_cache_chunks = 10

abbrev pub alignment : ℕ
alignment = 2048

abbrev pub read_ahead_size_min : ℕ
read_ahead_size_min = 4

abbrev pub read_ahead_size_max : ℕ
read_ahead_size_max = 512

-- DVD_VIDEO_LB_LEN, the bytes of a block.
abbrev pub block_len : ℕ
block_len = 2048

-- `buffer` with `n` blocks behind it.
abbrev pub block_at : (buffer n : ℕ) → ℕ
block_at buffer n = buffer + n * block_len

-- The first aligned address behind `base`.
unfoldable pub aligned : ℕ → ℕ
aligned base = base / alignment * alignment + alignment

-- What DVDReadBlocks leaves in the memory from an address on.
unfoldable pub write : {A : Type 0} → (ℕ → A) → ℕ → List A → ℕ → A
write memory at [] a = memory a
write memory at (b ∷ blocks) a = if a == at then b else write memory (at + block_len) blocks a

unfoldable pub clear_chunk : Chunk → Chunk
clear_chunk c = record c { cache_valid = false }

unfoldable pub dvdnav_read_cache_clear : Cache → Cache
dvdnav_read_cache_clear self = record self { chunk = map clear_chunk self.chunk }

unfoldable pub empty_chunk : Chunk → Chunk
empty_chunk c = record c { cache_buffer = none; usage_count = pos 0 }

-- `raw` is what malloc leaves in the chunks.
unfoldable pub dvdnav_read_cache_new : (raw : List Chunk) → Cache
unfolding dvdnav_read_cache_clear
dvdnav_read_cache_new raw =
    let self : Cache = dvdnav_read_cache_clear (record {
      chunk = raw;
      current = 0;
      freeing = false;
      last_sector = 0;
      read_ahead_size = read_ahead_size_min;
      read_ahead_incr = 0;
    }) in
    record self { chunk = map empty_chunk self.chunk }
