-- ===== src/ReadCache/Read.antt =====
-- dvdnav_read_cache_block of src/read_cache.c.
use libdvdnav.Prelude.{
  Bool, true, false, if◌then◌else◌, ◌&&◌, leb, ltb, ◌==◌, ℕ, suc, ◌+◌, ◌-◌, ◌*◌, Option, none, some,
  List, [], ◌∷◌, length, get_elem?, set, shr, sub32,
}
use libdvdnav.Prelude.Int.{ℤ, pos, negsuc, int_suc, int_pred}
use libdvdnav.Prelude.Program.{fault, pure, get, put, element, ◌>>=◌, ◌>>◌}
use libdvdnav.ReadCache.State.{
  Chunk, Cache, Store, ReadCache, block_len, block_at, write, read_ahead_size_min,
  read_ahead_size_max,
}

-- `sector <= start + count`.
abbrev pub reached : (sector start : ℕ) (count : ℤ) → Bool
reached sector start (pos n) = leb sector (start + n)
reached sector start (negsuc n) = leb (sector + suc n) start

abbrev pub covers : (sector block_count : ℕ) → Chunk → Bool
covers sector block_count c =
    c.cache_valid
    && leb c.cache_start_sector sector
    && reached sector c.cache_start_sector c.cache_read_count
    && leb (sector + block_count) (c.cache_start_sector + c.cache_block_count)

-- The last chunk that has the sector.
unfoldable pub find_chunk : (sector block_count i : ℕ) → List Chunk → Option ℕ → Option ℕ
find_chunk sector block_count i [] use_ = use_
find_chunk sector block_count i (c ∷ chunks) use_ =
    find_chunk sector block_count (suc i) chunks
      (if covers sector block_count c then some i else use_)

unfoldable pub look_in : (sector block_count : ℕ) → Cache → Chunk → Option ℕ
unfolding find_chunk
look_in sector block_count self cur =
    if covers sector block_count cur
    then some self.current
    else find_chunk sector block_count 0 self.chunk none

-- Read-ahead grows while the sectors follow each other.
unfoldable pub follow_sector : ℕ → Cache → Cache
follow_sector sector self =
    let follows : Bool = sector == self.last_sector + 1 in
    record self {
      read_ahead_incr =
          if follows
          then (if ltb self.read_ahead_incr read_ahead_size_max
              then suc self.read_ahead_incr
              else self.read_ahead_incr)
          else 0;
      read_ahead_size = if follows then self.read_ahead_size else read_ahead_size_min;
      last_sector = sector;
    }

unfoldable pub grow_read_ahead : Cache → Cache
grow_read_ahead self =
    let incr : ℕ = shr self.read_ahead_incr 1 in
    record self {
      read_ahead_size =
          if ltb read_ahead_size_max (self.read_ahead_size + incr)
          then read_ahead_size_max
          else self.read_ahead_size + incr;
    }

-- The size of the read, with `read_count` blocks read before.
unfoldable pub real_size : (read_ahead sector read_count : ℕ) → Chunk → ℕ
real_size read_ahead sector read_count c =
    if ltb c.cache_block_count (read_count + read_ahead)
    then sub32 c.cache_block_count read_count
    else if leb (c.cache_start_sector + read_count + read_ahead) sector
    then sector - c.cache_start_sector - read_count
    else read_ahead

module _ {A : Type 0} where
  -- `cache_read_count += DVDReadBlocks(...)`, where `none` is -1.
  abbrev pub add_read : ℕ → Option (List A) → ℤ
  add_read n none = int_pred (pos n)
  add_read n (some blocks) = pos (n + length blocks)

  unfoldable pub put_blocks : (ℕ → A) → ℕ → Option (List A) → ℕ → A
  unfolding write
  put_blocks memory at none = memory
  put_blocks memory at (some blocks) = write memory at blocks

  -- The result of DVDReadBlocks, in bytes.
  abbrev pub bytes_read : Option (List A) → ℤ
  bytes_read none = negsuc (block_len - 1)
  bytes_read (some blocks) = pos (length blocks * block_len)

-- libdvdread's DVDReadBlocks: the blocks that it read, or `none` for -1.
module _ {A : Type 0} (dvd_read_blocks : (start size : ℕ) → Option (List A)) where
  unfoldable pub read_on : (start size at n : ℕ) → (ℕ → A) → (ℕ → A) × ℤ
  unfolding put_blocks
  read_on start size at n memory = if size == 0 then (memory, pos n) else (
    put_blocks memory at (dvd_read_blocks start size),
    add_read n (dvd_read_blocks start size),
  )

  -- The chunk `use` is read on, after `n` blocks of it.
  unfoldable pub read_ahead : (sector use_ : ℕ) (c : Chunk) (buffer n : ℕ) → Store A → Store A
  unfolding follow_sector grow_read_ahead real_size read_on
  read_ahead sector use_ c buffer n s =
      let self : Cache = grow_read_ahead (follow_sector sector s.cache) in
      let size : ℕ = real_size self.read_ahead_size sector n c in
      let done : (ℕ → A) × ℤ =
        read_on (c.cache_start_sector + n) size (block_at buffer n) n s.memory in
      record {
        memory = done.0;
        cache = record self {
          chunk =
              set self.chunk use_
                (record c { usage_count = int_suc c.usage_count; cache_read_count = done.1 });
        };
      }

  -- The result and `*buf`.
  unfoldable pub read_chunk :
      (sector block_count use_ : ℕ) (c : Chunk) (buffer n : ℕ) → ReadCache A (ℤ × ℕ)
  unfolding ◌>>=◌ read_ahead
  read_chunk sector block_count use_ c buffer n = do
    s ← get
    put (read_ahead sector use_ c buffer n s)
    pure (pos (block_len * block_count), block_at buffer (sector - c.cache_start_sector))

  -- A pointer before the buffer is a fault.
  unfoldable pub read_after :
      (sector block_count use_ : ℕ) (c : Chunk) (buffer : ℕ) → ℤ → ReadCache A (ℤ × ℕ)
  unfolding read_chunk
  read_after sector block_count use_ c buffer (pos n) =
      read_chunk sector block_count use_ c buffer n
  read_after sector block_count use_ c buffer (negsuc _) = λ s. fault

  -- No chunk has the sector: the blocks go to the buffer of the caller.
  unfoldable pub read_direct : (sector block_count buf : ℕ) → ReadCache A (ℤ × ℕ)
  unfolding ◌>>=◌ put_blocks
  read_direct sector block_count buf = do
    s ← get
    put (record s { memory = put_blocks s.memory buf (dvd_read_blocks sector block_count) })
    pure (bytes_read (dvd_read_blocks sector block_count), buf)

  unfoldable pub read_found : (sector block_count buf : ℕ) → Option ℕ → ReadCache A (ℤ × ℕ)
  unfolding ◌>>=◌ read_direct read_after
  read_found sector block_count buf none = read_direct sector block_count buf
  read_found sector block_count buf (some use_) = do
    s ← get
    c ← element (get_elem? s.cache.chunk use_)
    buffer ← element c.cache_buffer
    read_after sector block_count use_ c buffer c.cache_read_count

  unfoldable pub dvdnav_read_cache_block :
      (use_read_ahead : Bool) (sector block_count buf : ℕ) → ReadCache A (ℤ × ℕ)
  unfolding ◌>>=◌ read_found look_in
  dvdnav_read_cache_block false sector block_count buf = read_found sector block_count buf none
  dvdnav_read_cache_block true sector block_count buf = do
    s ← get
    cur ← element (get_elem? s.cache.chunk s.cache.current)
    read_found sector block_count buf (look_in sector block_count s.cache cur)
