-- ===== src/ReadCache/Kept.antt =====
-- dvdnav_read_cache_block of src/read_cache.c keeps the invariant of the cache.
use libdvdnav.Prelude.{
  true, ℕ, ◌+◌, ◌≤◌, ◌≡◌, ◌≢◌, inl, inr, sym, subst, ◌∙◌, arith, Option, some, List, get_elem?, set,
  length-set,
}
use libdvdnav.Prelude.Int.{ℤ, pos, negsuc, int_suc}
use libdvdnav.ReadCache.State.{Chunk, Cache, Store, block_at}
use libdvdnav.ReadCache.Read.{
  read_on, read_ahead, real_size, follow_sector, grow_read_ahead, covers, reached,
}
use libdvdnav.ReadCache.Sound.{
  Filled, Loaded, ChunkIsSound, Reads, Apart, BuffersAreApart, ReadAheadIsBounded, StoreIsSound,
}
use libdvdnav.ReadCache.Sizes.{
  follow_sector-ReadAheadIsBounded, grow_read_ahead-ReadAheadIsBounded, real_size_fits,
}
use libdvdnav.ReadCache.Found.{covers_lem}
use libdvdnav.ReadCache.Preserve.{get_elem?_of_set, Progress, read_on_lem}

pub read_ahead_bounded :
    (sector : ℕ) (self : Cache)
    → ReadAheadIsBounded self.read_ahead_size
    → ReadAheadIsBounded (grow_read_ahead (follow_sector sector self)).read_ahead_size
read_ahead_bounded sector self h =
    grow_read_ahead-ReadAheadIsBounded (follow_sector sector self)
      (follow_sector-ReadAheadIsBounded sector self h)

-- A number in the cast to `int`.
pub pos_inj : (a b : ℕ) → pos a ≡ pos b → a ≡ b
pos_inj a b e = cc

abbrev pub read_to : Chunk → ℤ → Chunk
read_to c count = record c { usage_count = int_suc c.usage_count; cache_read_count = count }

Apart-swap : (a m b n : ℕ) → Apart a m b n → Apart b n a m
Apart-swap a m b n (inl below) = inr below
Apart-swap a m b n (inr above) = inl above

pub set-BuffersAreApart :
    (chunks : List Chunk) (u : ℕ) (v : Chunk)
    → BuffersAreApart chunks
    → ((j : ℕ) (d : Chunk) (a b : ℕ)
        → u ≢ j
        → get_elem? chunks j ≡ some d
        → v.cache_buffer ≡ some a
        → d.cache_buffer ≡ some b
        → Apart a v.cache_malloc_size b d.cache_malloc_size)
    → BuffersAreApart (set chunks u v)
set-BuffersAreApart chunks u v old new i j c d a b ne at_i at_j at_a at_b =
    elim (get_elem?_of_set chunks u i v c at_i) [
      | inl (u≡i, c≡v) ↦ elim (get_elem?_of_set chunks u j v d at_j) [
        | inl (u≡j, d≡v) ↦ absurd (ne (sym u≡i ∙ u≡j))
        | inr (u≢j, old_j) ↦
            subst (λ x. Apart a x.cache_malloc_size b d.cache_malloc_size) (sym c≡v)
              (new j d a b u≢j old_j (subst (λ x. x.cache_buffer ≡ some a) c≡v at_a) at_b)
      ]
      | inr (u≢i, old_i) ↦ elim (get_elem?_of_set chunks u j v d at_j) [
        | inl (u≡j, d≡v) ↦
            subst (λ x. Apart a c.cache_malloc_size b x.cache_malloc_size) (sym d≡v)
              (Apart-swap b v.cache_malloc_size a c.cache_malloc_size
                (new i c b a u≢i old_i (subst (λ x. x.cache_buffer ≡ some b) d≡v at_b) at_a))
        | inr (u≢j, old_j) ↦ old i j c d a b ne old_i old_j at_a at_b
      ]
    ]

pub reached_pos :
    (sector start n : ℕ) (count : ℤ)
    → count ≡ pos n
    → reached sector start count ≡ true
    → sector ≤ start + n
reached_pos sector start n (pos m) e h = let m≡n : m ≡ n = pos_inj m n e in ground (arith, m≡n)
reached_pos sector start n (negsuc m) e h = absurd (cc)

-- The count after the read.
unfoldable pub read_count :
    {A : Type 0} (dvd_read_blocks : (start size : ℕ) → Option (List A)) (sector : ℕ) (c : Chunk)
    (buffer n : ℕ)
    → Store A
    → ℤ
unfolding read_on
read_count dvd_read_blocks sector c buffer n s =
    (read_on dvd_read_blocks (c.cache_start_sector + n)
      (real_size (grow_read_ahead (follow_sector sector s.cache)).read_ahead_size sector n c)
      (block_at buffer n) n s.memory).1

module _ {A : Type 0} (disc : ℕ → A) where
  pub Loaded-Filled :
      (memory : ℕ → A) (c : Chunk) (buffer n : ℕ)
      → Loaded disc memory c
      → c.cache_buffer ≡ some buffer
      → c.cache_read_count ≡ pos n
      → (n ≤ c.cache_block_count) × Filled disc memory buffer c.cache_start_sector n
  Loaded-Filled memory c buffer n loaded placed counted = elim loaded.filled [
    | inl failed ↦ absurd (cc)
    | inr (m, counted', le, filled) ↦
        let m≡n : m ≡ n = pos_inj m n (sym counted' ∙ counted) in
        let here : loaded.buffer ≡ buffer = cc (loaded.placed, placed) in
        (
          omega (arith, m≡n, le),
          subst (λ b. Filled disc memory b c.cache_start_sector n) here
              (subst (Filled disc memory loaded.buffer c.cache_start_sector) m≡n filled),
        )
  ]

  -- Another chunk does not notice.
  pub Progress-others :
      (before after : ℕ → A) (buffer start room n size : ℕ) (count : ℤ) (d : Chunk)
      → Progress disc buffer start room n before after count
      → room ≤ size
      → ((b : ℕ) → d.cache_buffer ≡ some b → Apart b d.cache_malloc_size buffer size)
      → ChunkIsSound disc before d
      → ChunkIsSound disc after d
  Progress-others before after buffer start room n size count d progress fits apart old valid =
      let loaded : Loaded disc before d = old valid in
      record {
        buffer = loaded.buffer;
        placed = loaded.placed;
        fits = loaded.fits;
        small = loaded.small;
        filled = elim loaded.filled [
          | inl failed ↦ inl failed
          | inr (m, counted, le, filled) ↦ inr (
            m,
            counted,
            le,
            progress.others loaded.buffer d.cache_start_sector m
                (narrow m (omega (arith, le, loaded.fits)) (apart loaded.buffer loaded.placed))
                filled,
          )
        ];
      }
    where
      narrow :
          {b : ℕ}
          → (m : ℕ) → m ≤ d.cache_malloc_size
          → Apart b d.cache_malloc_size buffer size
          → Apart b m buffer room
      narrow m le (inl below) = inl (omega (arith, below, le))
      narrow m le (inr above) = inr (omega (arith, above, fits))

  read_chunk_sound :
      (s : Store A) (u : ℕ) (c : Chunk) (buffer n : ℕ) (memory : ℕ → A) (count : ℤ)
      → StoreIsSound disc s
      → get_elem? s.cache.chunk u ≡ some c
      → Loaded disc s.memory c
      → c.cache_buffer ≡ some buffer
      → Progress disc buffer c.cache_start_sector c.cache_block_count n s.memory memory count
      → (i : ℕ) (d : Chunk) → get_elem? (set s.cache.chunk u (read_to c count)) i ≡ some d
      → ChunkIsSound disc memory d
  read_chunk_sound s u c buffer n memory count h listed loaded placed progress i d e =
      elim (get_elem?_of_set s.cache.chunk u i (read_to c count) d e) [
        | inl (here, is_read) ↦ subst (ChunkIsSound disc memory) (sym is_read) (λ valid. record {
          buffer = buffer;
          placed = placed;
          fits = loaded.fits;
          small = loaded.small;
          filled = progress.filled;
        })
        | inr (there, listed') ↦
            Progress-others s.memory memory buffer c.cache_start_sector c.cache_block_count n
              c.cache_malloc_size count d progress loaded.fits
              (λ b at_b. h.apart i u d c b buffer (λ k. there (sym k)) listed' listed at_b placed)
              (h.sound i d listed')
      ]

  module _ (dvd_read_blocks : (start size : ℕ) → Option (List A))
      (reads : Reads disc dvd_read_blocks) where
    pub read_ahead-Progress :
        (s : Store A) (sector block_count u : ℕ) (c : Chunk) (buffer n : ℕ)
        → StoreIsSound disc s
        → get_elem? s.cache.chunk u ≡ some c
        → covers sector block_count c ≡ true
        → c.cache_buffer ≡ some buffer
        → c.cache_read_count ≡ pos n
        → Progress disc buffer c.cache_start_sector c.cache_block_count n s.memory
            (read_ahead dvd_read_blocks sector u c buffer n s).memory
            (read_count dvd_read_blocks sector c buffer n s)
    unfolding read_ahead read_count
    read_ahead-Progress s sector block_count u c buffer n h listed has placed counted =
        let tests : _ = covers_lem sector block_count c has in
        let loaded : Loaded disc s.memory c = h.sound u c listed tests.0 in
        let start : _ = Loaded-Filled s.memory c buffer n loaded placed counted in
        let self : Cache = grow_read_ahead (follow_sector sector s.cache) in
        let near : sector ≤ c.cache_start_sector + n =
          reached_pos sector c.cache_start_sector n c.cache_read_count counted tests.2 in
        read_on_lem disc dvd_read_blocks reads buffer c.cache_start_sector c.cache_block_count n
          (real_size self.read_ahead_size sector n c) s.memory
          (real_size_fits self.read_ahead_size sector n c
            (read_ahead_bounded sector s.cache h.ahead).0 start.0 loaded.small near)
          start.1

    pub read_ahead-StoreIsSound :
        (s : Store A) (sector block_count u : ℕ) (c : Chunk) (buffer n : ℕ)
        → StoreIsSound disc s
        → get_elem? s.cache.chunk u ≡ some c
        → covers sector block_count c ≡ true
        → c.cache_buffer ≡ some buffer
        → c.cache_read_count ≡ pos n
        → StoreIsSound disc (read_ahead dvd_read_blocks sector u c buffer n s)
    unfolding read_ahead follow_sector grow_read_ahead read_count
    read_ahead-StoreIsSound s sector block_count u c buffer n h listed has placed counted =
        let loaded : Loaded disc s.memory c =
          h.sound u c listed (covers_lem sector block_count c has).0 in
        let read : Chunk = read_to c (read_count dvd_read_blocks sector c buffer n s) in
        record {
          sound =
              read_chunk_sound s u c buffer n _ _ h listed loaded placed
                (read_ahead-Progress s sector block_count u c buffer n h listed has placed counted);
          apart =
              set-BuffersAreApart s.cache.chunk u read h.apart
                (λ j d a b e at_j at_a at_b. h.apart u j c d a b e listed at_j at_a at_b);
          at_current = omega (arith, h.at_current, length-set s.cache.chunk u read);
          ahead = read_ahead_bounded sector s.cache h.ahead;
        }
