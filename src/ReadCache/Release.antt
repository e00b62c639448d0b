-- ===== src/ReadCache/Release.antt =====
-- dvdnav_free_cache_block and dvdnav_read_cache_free of src/read_cache.c.
use libdvdnav.Prelude.{
  Bool, true, false, if◌then◌else◌, ◌&&◌, leb, ltb, ℕ, Option, none, some, List, [], ◌∷◌, map,
}
use libdvdnav.Prelude.Int.{int_pred}
use libdvdnav.ReadCache.State.{Chunk, Cache, block_at}
use libdvdnav.ReadCache.Allocate.{has_buffer, unused}

unfoldable pub free_chunk : Chunk → Chunk
free_chunk c = if unused c then record c { cache_buffer = none } else c

abbrev pub any_buffer : List Chunk → Bool
any_buffer [] = false
any_buffer (c ∷ chunks) = if has_buffer c then true else any_buffer chunks

-- `none` is that all was freed, the cache and the player as well.
unfoldable pub dvdnav_read_cache_free : Cache → Option Cache
unfolding free_chunk
dvdnav_read_cache_free self =
    let chunks : List Chunk = map free_chunk self.chunk in
    if any_buffer chunks then some (record self { freeing = true; chunk = chunks }) else none

abbrev pub lies_in : ℕ → Chunk → Bool
lies_in buf c = elim c.cache_buffer [
  | none ↦ false
  | some buffer ↦ leb buffer buf && ltb buf (block_at buffer c.cache_malloc_size)
]

unfoldable pub return_to : ℕ → Chunk → Chunk
return_to buf c = if lies_in buf c then record c { usage_count = int_pred c.usage_count } else c

-- `none` is that the last block came back to a cache that was to be freed.
unfoldable pub dvdnav_free_cache_block : Cache → (buf : ℕ) → Option Cache
unfolding return_to dvdnav_read_cache_free
dvdnav_free_cache_block cache buf =
    let returned : Cache = record cache { chunk = map (return_to buf) cache.chunk } in
    if returned.freeing then dvdnav_read_cache_free returned else some returned
