-- ===== src/ReadCache/Transparent.antt =====
-- A read of src/read_cache.c through the cache is a read of the disc.
use libdvdnav.Prelude.{
  Bool, Option-cases, true, false, ne→==, eq→==, ℕ, zero, suc, ◌+◌, ◌-◌, ◌≤◌, ◌≡◌, ◌⊎◌, inl, inr,
  refl, ap, ◌∙◌, arith, Option, some, List, get_elem?, get_elem?_of_lt,
}
use libdvdnav.Prelude.Int.{ℤ, pos}
use libdvdnav.Prelude.Program.{value, ◌>>=◌}
use libdvdnav.ReadCache.State.{Chunk, Cache, Store, block_at, block_len, write}
use libdvdnav.ReadCache.Read.{
  read_on, put_blocks, bytes_read, read_ahead, real_size, follow_sector, grow_read_ahead, covers,
  look_in, read_direct, read_found, dvdnav_read_cache_block,
}
use libdvdnav.ReadCache.Sound.{Filled, Loaded, Reads, Complete, StoreIsSound}
use libdvdnav.ReadCache.Sizes.{real_size_reaches}
use libdvdnav.ReadCache.Found.{Covering, look_in_lem, covers_lem}
use libdvdnav.ReadCache.Fill.{write-Filled}
use libdvdnav.ReadCache.Kept.{
  Loaded-Filled, read_ahead-StoreIsSound, read_ahead_bounded, reached_pos,
}
use libdvdnav.ReadCache.Serve.{
  Readable, covers-Readable, OutsideOfChunks, read_found-some, read_direct-StoreIsSound,
}

-- How the call goes: past the cache, or through a chunk that has the sector.
pub look_cases :
    {A : Type 0} (disc : ℕ → A) (dvd_read_blocks : (start size : ℕ) → Option (List A))
    (use_read_ahead : Bool) (sector block_count buf : ℕ) (s : Store A)
    → StoreIsSound disc s
    → (dvdnav_read_cache_block dvd_read_blocks use_read_ahead sector block_count buf s
        ≡ value
            (bytes_read (dvd_read_blocks sector block_count), buf)
            (record s { memory = put_blocks s.memory buf (dvd_read_blocks sector block_count) }))
      ⊎ ((u : ℕ) × (found : Covering sector block_count u s.cache.chunk) × (dvdnav_read_cache_block
              dvd_read_blocks use_read_ahead sector block_count buf s
            ≡ read_found dvd_read_blocks sector block_count buf (some u) s))
unfolding dvdnav_read_cache_block ◌>>=◌ read_found read_direct
look_cases disc dvd_read_blocks false sector block_count buf s h = inl refl
look_cases disc dvd_read_blocks true sector block_count buf s h =
    let (cur, at_cur) = get_elem?_of_lt s.cache.chunk s.cache.current h.at_current in
    elim (Option-cases (look_in sector block_count s.cache cur)) [
      | inl miss ↦ inl (rw (at_cur, miss) refl)
      | inr (u, hit) ↦
          inr (u, look_in_lem sector block_count s.cache cur u at_cur hit, rw (at_cur, hit) refl)
    ]

module _ {A : Type 0} (disc : ℕ → A) (dvd_read_blocks : (start size : ℕ) → Option (List A)) where
  -- A read ends without a fault and keeps the invariant.
  pub dvdnav_read_cache_block-StoreIsSound :
      (use_read_ahead : Bool) (sector block_count buf : ℕ) (s : Store A)
      → Reads disc dvd_read_blocks
      → StoreIsSound disc s
      → OutsideOfChunks disc buf block_count s.cache.chunk
      → (result : ℤ × ℕ) × (s' : Store A) × (dvdnav_read_cache_block dvd_read_blocks use_read_ahead
            sector block_count buf s
          ≡ value result s')
        × StoreIsSound disc s'
  dvdnav_read_cache_block-StoreIsSound use_read_ahead sector block_count buf s reads h outside =
      elim (look_cases disc dvd_read_blocks use_read_ahead sector block_count buf s h) [
        | inl past ↦ (
          _,
          _,
          past,
          read_direct-StoreIsSound disc dvd_read_blocks s sector block_count buf reads h outside,
        )
        | inr (u, found, through) ↦
            let r : Readable found.at_use =
              covers-Readable disc s.memory sector block_count found.at_use
                (h.sound u found.at_use found.listed) found.has in
            (
              _,
              _,
              through
                  ∙ read_found-some disc dvd_read_blocks s sector block_count buf u found.at_use r
                      found.listed,
              read_ahead-StoreIsSound disc dvd_read_blocks reads s sector block_count u found.at_use
                  r.buffer r.read h found.listed found.has r.placed r.counted,
            )
      ]

  read_on-Complete :
      (buffer start n size : ℕ) (memory : ℕ → A)
      → Complete disc dvd_read_blocks
      → Filled disc memory buffer start n
      → Filled disc
          (read_on dvd_read_blocks (start + n) size (block_at buffer n) n memory).0
          buffer
          start
          (n + size)
  unfolding read_on put_blocks
  read_on-Complete buffer start n zero memory complete filled = λ k h. filled k (omega arith)
  read_on-Complete buffer start n (suc size) memory complete filled =
      rw (ne→== (suc size) 0 (omega arith), complete (start + n) (suc size))
        (write-Filled disc memory buffer start n (suc size) filled)

  read_ahead-sector :
      (sector u : ℕ) (c : Chunk) (r : Readable c) (s : Store A)
      → Complete disc dvd_read_blocks
      → StoreIsSound disc s
      → get_elem? s.cache.chunk u ≡ some c
      → covers sector 1 c ≡ true
      → (read_ahead dvd_read_blocks sector u c r.buffer r.read s).memory
          (block_at r.buffer (sector - c.cache_start_sector))
        ≡ disc sector
  unfolding read_ahead follow_sector grow_read_ahead
  read_ahead-sector sector u c r s complete h listed has =
      let tests : _ = covers_lem sector 1 c has in
      let loaded : Loaded disc s.memory c = h.sound u c listed tests.0 in
      let start : _ = Loaded-Filled disc s.memory c r.buffer r.read loaded r.placed r.counted in
      let self : Cache = grow_read_ahead (follow_sector sector s.cache) in
      let near : sector ≤ c.cache_start_sector + r.read =
        reached_pos sector c.cache_start_sector r.read c.cache_read_count r.counted tests.2 in
      let inside : _ =
        real_size_reaches self.read_ahead_size sector r.read c
          (read_ahead_bounded sector s.cache h.ahead).0 start.0 loaded.small near
          (omega (arith, tests.3)) in
      read_on-Complete r.buffer c.cache_start_sector r.read
        (real_size self.read_ahead_size sector r.read c) s.memory complete start.1
        (sector - c.cache_start_sector) (omega (arith, inside, tests.1))
      ∙ ap disc (omega (arith, tests.1))

  one_block_bytes :
      (sector : ℕ)
      → Complete disc dvd_read_blocks
      → bytes_read (dvd_read_blocks sector 1) ≡ pos block_len
  one_block_bytes sector complete = rw (complete sector 1) refl

  direct-sector :
      (sector buf : ℕ) (memory : ℕ → A)
      → Complete disc dvd_read_blocks
      → put_blocks memory buf (dvd_read_blocks sector 1) buf ≡ disc sector
  unfolding put_blocks write
  direct-sector sector buf memory complete = rw (complete sector 1, eq→== buf buf refl) refl

  -- From a drive without errors the caller gets the block of the disc, in the cache or not.
  pub dvdnav_read_cache_block_lem :
      (use_read_ahead : Bool) (sector buf : ℕ) (s : Store A)
      → Complete disc dvd_read_blocks
      → StoreIsSound disc s
      → (at : ℕ) × (s' : Store A) × (dvdnav_read_cache_block dvd_read_blocks use_read_ahead sector 1
            buf s
          ≡ value (pos block_len, at) s')
        × (s'.memory at ≡ disc sector)
  dvdnav_read_cache_block_lem use_read_ahead sector buf s complete h =
      elim (look_cases disc dvd_read_blocks use_read_ahead sector 1 buf s h) [
        | inl past ↦ (
          buf,
          record s { memory = put_blocks s.memory buf (dvd_read_blocks sector 1) },
          rw (← one_block_bytes sector complete) past,
          direct-sector sector buf s.memory complete,
        )
        | inr (u, found, through) ↦
            let r : Readable found.at_use =
              covers-Readable disc s.memory sector 1 found.at_use
                (h.sound u found.at_use found.listed) found.has in
            (
              _,
              _,
              through
                  ∙ read_found-some disc dvd_read_blocks s sector 1 buf u found.at_use r
                      found.listed,
              read_ahead-sector sector u found.at_use r s complete h found.listed found.has,
            )
      ]
