-- ===== src/ReadCache/Held.antt =====
-- Blocks that src/read_cache.c gave out stay as they are while others are read.
use libdvdnav.Prelude.{
  Bool, true, Bool-cases, ℕ, ◌≤◌, ◌≡◌, ◌≢◌, inl, inr, ap, sym, subst, ◌∙◌, arith, Option, some,
  some_inj, List, get_elem?, ==_iff, ◌==◌,
}
use libdvdnav.Prelude.Int.{ℤ, pos}
use libdvdnav.Prelude.Program.{value}
use libdvdnav.ReadCache.State.{Chunk, Store}
use libdvdnav.ReadCache.Read.{put_blocks, read_ahead, dvdnav_read_cache_block, covers}
use libdvdnav.ReadCache.Sound.{Filled, Loaded, Reads, Apart, StoreIsSound}
use libdvdnav.ReadCache.Found.{covers_lem}
use libdvdnav.ReadCache.Kept.{pos_inj, read_ahead-Progress, Loaded-Filled}
use libdvdnav.ReadCache.Serve.{
  Readable, covers-Readable, OutsideOfChunks, read_found-some, direct-others,
}
use libdvdnav.ReadCache.Transparent.{look_cases}

-- The blocks that are in the valid chunks of the first store are those of the memory.
abbrev pub BlocksAreKept : {A : Type 0} (disc : ℕ → A) → Store A → (memory : ℕ → A) → Type 0
BlocksAreKept disc s memory =
    (i : ℕ) (c : Chunk) (a n : ℕ)
    → get_elem? s.cache.chunk i ≡ some c
    → c.cache_valid ≡ true
    → c.cache_buffer ≡ some a
    → c.cache_read_count ≡ pos n
    → Filled disc memory a c.cache_start_sector n

module _ {A : Type 0} (disc : ℕ → A) (dvd_read_blocks : (start size : ℕ) → Option (List A))
    (reads : Reads disc dvd_read_blocks) (s : Store A) (h : StoreIsSound disc s) where
  filled_now : BlocksAreKept disc s s.memory
  filled_now i c a n listed valid placed counted =
      (Loaded-Filled disc s.memory c a n (h.sound i c listed valid) placed counted).1

  narrow_from :
      (i u : ℕ) (c d : Chunk) (a b n : ℕ)
      → i ≢ u
      → get_elem? s.cache.chunk i ≡ some c
      → get_elem? s.cache.chunk u ≡ some d
      → c.cache_buffer ≡ some a
      → d.cache_buffer ≡ some b
      → n ≤ c.cache_malloc_size
      → Loaded disc s.memory d
      → Apart a n b d.cache_block_count
  narrow_from i u c d a b n ne at_i at_u at_a at_b le loaded =
      narrow (h.apart i u c d a b ne at_i at_u at_a at_b)
    where
      narrow : Apart a c.cache_malloc_size b d.cache_malloc_size → Apart a n b d.cache_block_count
      narrow (inl below) = inl (omega (arith, below, le))
      narrow (inr above) = inr (omega (arith, above, loaded.fits))

  through-BlocksAreKept :
      (sector block_count u : ℕ) (d : Chunk) (r : Readable d)
      → get_elem? s.cache.chunk u ≡ some d
      → covers sector block_count d ≡ true
      → BlocksAreKept disc s (read_ahead dvd_read_blocks sector u d r.buffer r.read s).memory
  through-BlocksAreKept sector block_count u d r at_u has i c a n listed valid placed counted =
      let progress : _ =
        read_ahead-Progress disc dvd_read_blocks reads s sector block_count u d r.buffer r.read h
          at_u has r.placed r.counted in
      let loaded : Loaded disc s.memory d =
        h.sound u d at_u (covers_lem sector block_count d has).0 in
      let le : _ =
        (Loaded-Filled disc s.memory c a n (h.sound i c listed valid) placed counted).0 in
      elim (Bool-cases (i == u)) [
        | inl same ↦
            let i≡u : i ≡ u = (==_iff i u).0 same in
            let c≡d : c ≡ d = some_inj c d (sym listed ∙ ap (get_elem? s.cache.chunk) i≡u ∙ at_u) in
            let a≡b : r.buffer ≡ a =
              some_inj r.buffer a (sym r.placed ∙ ap (λ x. x.cache_buffer) (sym c≡d) ∙ placed) in
            let n≡m : r.read ≡ n =
              pos_inj r.read n (sym r.counted ∙ ap (λ x. x.cache_read_count) (sym c≡d) ∙ counted) in
            let kept : Filled disc (read_ahead dvd_read_blocks sector u d r.buffer r.read s).memory
                a d.cache_start_sector n =
              subst
                (λ x.
                  Filled disc (read_ahead dvd_read_blocks sector u d r.buffer r.read s).memory a
                    d.cache_start_sector x)
                n≡m
                (subst
                  (λ x.
                    Filled disc (read_ahead dvd_read_blocks sector u d r.buffer r.read s).memory x
                      d.cache_start_sector r.read)
                  a≡b progress.kept) in
            subst
              (λ x.
                Filled disc (read_ahead dvd_read_blocks sector u d r.buffer r.read s).memory a
                  x.cache_start_sector n)
              (sym c≡d) kept
        | inr other ↦
            progress.others a c.cache_start_sector n
              (narrow_from i u c d a r.buffer n (λ e. ground (arith, e, other)) listed at_u placed
                r.placed (omega (arith, le, (h.sound i c listed valid).fits)) loaded)
              (filled_now i c a n listed valid placed counted)
      ]

  direct-BlocksAreKept :
      (sector block_count buf : ℕ)
      → OutsideOfChunks disc buf block_count s.cache.chunk
      → BlocksAreKept disc s (put_blocks s.memory buf (dvd_read_blocks sector block_count))
  direct-BlocksAreKept sector block_count buf outside i c a n listed valid placed counted =
      let le : _ =
        (Loaded-Filled disc s.memory c a n (h.sound i c listed valid) placed counted).0 in
      (direct-others disc dvd_read_blocks sector block_count buf s.memory reads).others a
        c.cache_start_sector n
        (narrow (omega (arith, le, (h.sound i c listed valid).fits)) (outside i c a listed placed))
        (filled_now i c a n listed valid placed counted)
    where
      narrow :
          n ≤ c.cache_malloc_size
          → Apart a c.cache_malloc_size buf block_count
          → Apart a n buf block_count
      narrow le (inl below) = inl (omega (arith, below, le))
      narrow le (inr above) = inr above

  -- A read, whether it fails or not, leaves the blocks of the disc that the valid chunks hold.
  pub dvdnav_read_cache_block-BlocksAreKept :
      (use_read_ahead : Bool) (sector block_count buf : ℕ)
      → OutsideOfChunks disc buf block_count s.cache.chunk
      → (result : ℤ × ℕ) × (s' : Store A) × (dvdnav_read_cache_block dvd_read_blocks use_read_ahead
            sector block_count buf s
          ≡ value result s')
        × BlocksAreKept disc s s'.memory
  dvdnav_read_cache_block-BlocksAreKept use_read_ahead sector block_count buf outside =
      elim (look_cases disc dvd_read_blocks use_read_ahead sector block_count buf s h) [
        | inl past ↦ (_, _, past, direct-BlocksAreKept sector block_count buf outside)
        | inr (u, found, through) ↦
            let r : Readable found.at_use =
              covers-Readable disc s.memory sector block_count found.at_use
                (h.sound u found.at_use found.listed) found.has in
            (
              _,
              _,
              through
                  ∙ read_found-some disc dvd_read_blocks s sector block_count buf u found.at_use r
                      found.listed,
              through-BlocksAreKept sector block_count u found.at_use r found.listed found.has,
            )
      ]
