-- ===== src/ReadCache/Serve.antt =====
-- What dvdnav_read_cache_block of src/read_cache.c gives to its caller.
use libdvdnav.Prelude.{
  true, ℕ, ◌-◌, ◌*◌, ◌≤◌, ◌≡◌, inl, inr, refl, arith, Option, some, List, length, get_elem?,
}
use libdvdnav.Prelude.Int.{ℤ, pos, negsuc}
use libdvdnav.Prelude.Program.{value, ◌>>=◌}
use libdvdnav.ReadCache.State.{Chunk, Store, block_at, block_len}
use libdvdnav.ReadCache.Read.{
  put_blocks, read_ahead, covers, reached, read_chunk, read_after, read_found,
}
use libdvdnav.ReadCache.Memory.{sectors, length-sectors}
use libdvdnav.ReadCache.Sound.{Loaded, ChunkIsSound, Reads, Apart, StoreIsSound}
use libdvdnav.ReadCache.Found.{covers_lem}
use libdvdnav.ReadCache.Fill.{write-Filled-Apart}
use libdvdnav.ReadCache.Preserve.{Progress}
use libdvdnav.ReadCache.Kept.{Progress-others}

-- The chunk has a buffer and a count, so it can be read on.
pub record Readable (c : Chunk) : Type 0 where
  pub buffer : ℕ
  pub read : ℕ
  pub placed : c.cache_buffer ≡ some buffer
  pub counted : c.cache_read_count ≡ pos read

covering_readable_go :
    (sector start : ℕ) (count : ℤ)
    → start ≤ sector
    → reached sector start count ≡ true
    → (n : ℕ) × (count ≡ pos n)
covering_readable_go sector start (pos n) le h = (n, refl)
covering_readable_go sector start (negsuc n) le h = absurd (ground arith)

module _ {A : Type 0} (disc : ℕ → A) where
  pub covers-Readable :
      (memory : ℕ → A) (sector block_count : ℕ) (c : Chunk)
      → ChunkIsSound disc memory c
      → covers sector block_count c ≡ true
      → Readable c
  covers-Readable memory sector block_count c sound has =
      let tests : _ = covers_lem sector block_count c has in
      let counted : _ =
        covering_readable_go sector c.cache_start_sector c.cache_read_count tests.1 tests.2 in
      let loaded : Loaded disc memory c = sound tests.0 in
      record {
        buffer = loaded.buffer;
        read = counted.0;
        placed = loaded.placed;
        counted = counted.1;
      }

  -- The buffer of the caller lies outside of the chunks.
  abbrev pub OutsideOfChunks : (buf block_count : ℕ) → List Chunk → Type 0
  OutsideOfChunks buf block_count chunks =
      (i : ℕ) (c : Chunk) (a : ℕ)
      → get_elem? chunks i ≡ some c
      → c.cache_buffer ≡ some a
      → Apart a c.cache_malloc_size buf block_count

  module _ (dvd_read_blocks : (start size : ℕ) → Option (List A)) where
    -- The call of the code on a chunk that has the sector.
    pub read_found-some :
        (s : Store A) (sector block_count buf u : ℕ) (c : Chunk) (r : Readable c)
        → get_elem? s.cache.chunk u ≡ some c
        → read_found dvd_read_blocks sector block_count buf (some u) s
          ≡ value
              (pos (block_len * block_count), block_at r.buffer (sector - c.cache_start_sector))
              (read_ahead dvd_read_blocks sector u c r.buffer r.read s)
    unfolding read_found ◌>>=◌ read_after read_chunk
    read_found-some s sector block_count buf u c r listed = rw (listed, r.placed, r.counted) refl

    pub direct-others :
        (sector block_count buf : ℕ) (memory : ℕ → A)
        → Reads disc dvd_read_blocks
        → Progress disc buf 0 block_count 0 memory
            (put_blocks memory buf (dvd_read_blocks sector block_count))
            (negsuc 0)
    unfolding put_blocks
    direct-others sector block_count buf memory reads = elim (reads sector block_count) [
      | inl failed ↦ rw (failed) (record {
        filled = inl refl;
        kept = λ k h. absurd (omega (arith, h));
        others = λ b start' n' apart old. old;
      })
      | inr (m, small, got) ↦ rw (got) (record {
        filled = inl refl;
        kept = λ k h. absurd (omega (arith, h));
        others = λ b start' n' apart.
            write-Filled-Apart disc memory b start' n' buf (sectors disc sector m)
              (narrow b n' m small apart);
      })
    ]
      where
        narrow :
            (b n' m : ℕ)
            → m ≤ block_count
            → Apart b n' buf block_count
            → Apart b n' buf (length (sectors disc sector m))
        narrow b n' m small (inl below) = inl below
        narrow b n' m small (inr above) =
            inr (omega (arith, above, small, length-sectors disc sector m))

    pub read_direct-StoreIsSound :
        (s : Store A) (sector block_count buf : ℕ)
        → Reads disc dvd_read_blocks
        → StoreIsSound disc s
        → OutsideOfChunks buf block_count s.cache.chunk
        → StoreIsSound disc
            (record s { memory = put_blocks s.memory buf (dvd_read_blocks sector block_count) })
    read_direct-StoreIsSound s sector block_count buf reads h outside = record {
      sound = λ i c listed.
          Progress-others disc s.memory
            (put_blocks s.memory buf (dvd_read_blocks sector block_count)) buf 0 block_count 0
            block_count (negsuc 0) c (direct-others sector block_count buf s.memory reads)
            (omega arith) (λ b. outside i c b listed) (h.sound i c listed);
      apart = h.apart;
      at_current = h.at_current;
      ahead = h.ahead;
    }
