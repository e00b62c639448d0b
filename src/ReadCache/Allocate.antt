-- ===== src/ReadCache/Allocate.antt =====
-- dvdnav_pre_cache_blocks of src/read_cache.c: the choice of a chunk for a unit.
use libdvdnav.Prelude.{
  Bool, true, false, if◌then◌else◌, ◌&&◌, leb, ltb, ℕ, suc, Option, none, some, List, [], ◌∷◌, set,
}
use libdvdnav.Prelude.Int.{pos, int_eqb}
use libdvdnav.ReadCache.State.{Chunk, Cache, aligned}

abbrev pub has_buffer : Chunk → Bool
has_buffer c = elim c.cache_buffer [ none ↦ false | some _ ↦ true ]

-- A chunk with a buffer that nobody uses.
abbrev pub unused : Chunk → Bool
unused c = int_eqb c.usage_count (pos 0) && has_buffer c

-- `use` and `chunk[use]`, where `none` is -1.
abbrev pub Choice : Type 0
Choice = Option (ℕ × Chunk)

unfoldable pub larger : Choice → Chunk → Bool
larger none c = true
larger (some (_, u)) c = ltb c.cache_malloc_size u.cache_malloc_size

-- The free chunk that fits best.
unfoldable pub best_fit : (block_count i : ℕ) → List Chunk → Choice → Choice
unfolding larger
best_fit block_count i [] use_ = use_
best_fit block_count i (c ∷ chunks) use_ =
    best_fit block_count (suc i) chunks (
      if unused c && leb block_count c.cache_malloc_size && larger use_ c
      then some (i, c)
      else use_)

unfoldable pub smaller : Choice → Chunk → Bool
smaller none c = true
smaller (some (_, u)) c = ltb u.cache_malloc_size c.cache_malloc_size

-- The largest free chunk.
unfoldable pub largest : (i : ℕ) → List Chunk → Choice → Choice
unfolding smaller
largest i [] use_ = use_
largest i (c ∷ chunks) use_ =
    largest (suc i) chunks (if unused c && smaller use_ c then some (i, c) else use_)

-- The first chunk without a buffer.
unfoldable pub first_empty : (i : ℕ) → List Chunk → Choice
first_empty i [] = none
first_empty i (c ∷ chunks) = if has_buffer c then first_empty (suc i) chunks else some (i, c)

unfoldable pub with_buffer : (base size : ℕ) → Chunk → Chunk
unfolding aligned
with_buffer base size c = record c {
  cache_buffer_base = base;
  cache_buffer = some (aligned base);
  cache_malloc_size = size;
}

unfoldable pub first_size : ℕ → ℕ
first_size block_count = if ltb 500 block_count then block_count else 500

unfoldable pub new_buffer : (base block_count : ℕ) → Choice → Choice
unfolding with_buffer first_size
new_buffer base block_count none = none
new_buffer base block_count (some (i, c)) = some (i, with_buffer base (first_size block_count) c)

unfoldable pub grow_buffer : (base block_count : ℕ) → List Chunk → Choice → Choice
unfolding first_empty with_buffer new_buffer
grow_buffer base block_count chunks none = new_buffer base block_count (first_empty 0 chunks)
grow_buffer base block_count chunks (some (i, c)) = some (i, with_buffer base block_count c)

unfoldable pub fit_or_grow : (base block_count : ℕ) → List Chunk → Choice → Choice
unfolding largest grow_buffer
fit_or_grow base block_count chunks none =
    grow_buffer base block_count chunks (largest 0 chunks none)
fit_or_grow base block_count chunks (some u) = some u

-- The three searches for a chunk, with the buffer it gets.
unfoldable pub choose_chunk : (base block_count : ℕ) → List Chunk → Choice
unfolding best_fit fit_or_grow
choose_chunk base block_count chunks =
    fit_or_grow base block_count chunks (best_fit block_count 0 chunks none)

unfoldable pub assign : (sector block_count : ℕ) → Chunk → Chunk
assign sector block_count c = record c {
  cache_start_sector = sector;
  cache_block_count = block_count;
  cache_read_count = pos 0;
  cache_valid = true;
}

unfoldable pub use_chunk : (sector block_count : ℕ) → Cache → Choice → Cache
unfolding assign
use_chunk sector block_count self none = self
use_chunk sector block_count self (some (i, c)) = record self {
  chunk = set self.chunk i (assign sector block_count c);
  current = i;
}

-- `base` is the address that malloc or realloc returns, should this call ask for memory.
unfoldable pub dvdnav_pre_cache_blocks :
    (use_read_ahead : Bool) (base : ℕ) → Cache → (sector block_count : ℕ) → Cache
unfolding use_chunk choose_chunk
dvdnav_pre_cache_blocks use_read_ahead base self sector block_count =
    if use_read_ahead
    then use_chunk sector block_count self (choose_chunk base block_count self.chunk)
    else self
