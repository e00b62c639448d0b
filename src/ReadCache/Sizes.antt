-- ===== src/ReadCache/Sizes.antt =====
-- The read-ahead sizes of dvdnav_read_cache_block in src/read_cache.c.
use libdvdnav.Prelude.{ℕ, ◌+◌, ◌^◌, ◌<◌, ◌≤◌, arith}
use libdvdnav.ReadCache.State.{Chunk, Cache, read_ahead_size_min}
use libdvdnav.ReadCache.Read.{follow_sector, grow_read_ahead, real_size}
use libdvdnav.ReadCache.Sound.{ReadAheadIsBounded}

pub follow_sector-ReadAheadIsBounded :
    (sector : ℕ) (self : Cache)
    → ReadAheadIsBounded self.read_ahead_size
    → ReadAheadIsBounded (follow_sector sector self).read_ahead_size
unfolding follow_sector
follow_sector-ReadAheadIsBounded sector self h = ground (arith, h.0, h.1)

pub grow_read_ahead-ReadAheadIsBounded :
    (self : Cache)
    → ReadAheadIsBounded self.read_ahead_size
    → ReadAheadIsBounded (grow_read_ahead self).read_ahead_size
unfolding grow_read_ahead
grow_read_ahead-ReadAheadIsBounded self h = ground (arith, h.0, h.1)

pub real_size_fits :
    (ahead sector n : ℕ) (c : Chunk)
    → read_ahead_size_min ≤ ahead
    → n ≤ c.cache_block_count
    → c.cache_block_count < 2 ^ 31
    → sector ≤ c.cache_start_sector + n
    → n + real_size ahead sector n c ≤ c.cache_block_count
unfolding real_size
real_size_fits ahead sector n c min le small near = ground arith

-- The sector is among those read by then.
pub real_size_reaches :
    (ahead sector n : ℕ) (c : Chunk)
    → read_ahead_size_min ≤ ahead
    → n ≤ c.cache_block_count
    → c.cache_block_count < 2 ^ 31
    → sector ≤ c.cache_start_sector + n
    → sector < c.cache_start_sector + c.cache_block_count
    → sector < c.cache_start_sector + (n + real_size ahead sector n c)
unfolding real_size
real_size_reaches ahead sector n c min le small near inside = ground arith
