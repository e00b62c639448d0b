-- ===== src/ReadCache/Returned.antt =====
-- Blocks given out by dvdnav_read_cache_block come back by dvdnav_free_cache_block.
use libdvdnav.Prelude.{
  Bool, true, false, Bool-cases, Option-cases, ℕ, zero, suc, ◌-◌, ◌<◌, ◌≤◌, ◌≡◌, ◌≢◌, ◌⊎◌, inl, inr,
  refl, ap, sym, subst, ◌∙◌, arith, Option, some, some_inj, List, [], ◌∷◌, map, set, get_elem?,
  get_elem?-set_self, get_elem?-set_ne, lt_of_get_elem?, ==_iff, ◌==◌,
}
use libdvdnav.Prelude.Int.{ℤ, pos, negsuc, int_suc, int_pred}
use libdvdnav.Prelude.Program.{value}
use libdvdnav.ReadCache.State.{Chunk, Cache, Store, block_at}
use libdvdnav.ReadCache.Read.{
  put_blocks, read_ahead, follow_sector, grow_read_ahead, dvdnav_read_cache_block, covers,
}
use libdvdnav.ReadCache.Release.{lies_in, return_to, dvdnav_free_cache_block}
use libdvdnav.ReadCache.Sound.{Loaded, Apart, StoreIsSound}
use libdvdnav.ReadCache.Found.{covers_lem}
use libdvdnav.ReadCache.Kept.{read_to, read_count}
use libdvdnav.ReadCache.Serve.{Readable, covers-Readable, OutsideOfChunks, read_found-some}
use libdvdnav.ReadCache.Transparent.{look_cases}

pub get_elem?-map {ℓ κ} :
    {A : Type ℓ} {B : Type κ} (f : A → B) (xs : List A) (i : ℕ) (a : A)
    → get_elem? xs i ≡ some a
    → get_elem? (map f xs) i ≡ some (f a)
get_elem?-map f [] i a e = absurd (cc)
get_elem?-map f (x ∷ xs) zero a e = cc
get_elem?-map f (x ∷ xs) (suc i) a e = get_elem?-map f xs i a e

int_pred-suc : (n : ℤ) → int_pred (int_suc n) ≡ n
int_pred-suc (pos n) = refl
int_pred-suc (negsuc zero) = refl
int_pred-suc (negsuc (suc n)) = refl

-- The same chunks, used as often.
abbrev pub UsedAlike : List Chunk → List Chunk → Type 0
UsedAlike before after =
    (i : ℕ) (c : Chunk)
    → get_elem? before i ≡ some c
    → (c' : Chunk) × (get_elem? after i ≡ some c') × (c'.usage_count ≡ c.usage_count)

lies_outside :
    (buf : ℕ) (c : Chunk)
    → ((a : ℕ) → c.cache_buffer ≡ some a → (buf < a) ⊎ (block_at a c.cache_malloc_size ≤ buf))
    → lies_in buf c ≡ false
lies_outside buf c h = elim (Option-cases c.cache_buffer) [
  | inl e ↦ rw (e) refl
  | inr (a, e) ↦ elim (h a e) [
    | inl below ↦ rw (e) (ground (arith, below))
    | inr above ↦ rw (e) (ground (arith, above))
  ]
]

lies_inside :
    (buf a : ℕ) (c : Chunk)
    → c.cache_buffer ≡ some a
    → a ≤ buf
    → buf < block_at a c.cache_malloc_size
    → lies_in buf c ≡ true
lies_inside buf a c e low high = rw (e) (ground arith)

module _ (buf : ℕ) where
  -- Every block was given to somebody else.
  return_elsewhere :
      (chunks : List Chunk)
      → ((i : ℕ) (c : Chunk) → get_elem? chunks i ≡ some c → lies_in buf c ≡ false)
      → UsedAlike chunks (map (return_to buf) chunks)
  unfolding return_to
  return_elsewhere chunks outside i c listed = (
    return_to buf c,
    get_elem?-map (return_to buf) chunks i c listed,
    rw (outside i c listed) refl,
  )

  return_here :
      (chunks : List Chunk) (u : ℕ) (d : Chunk) (count : ℤ)
      → get_elem? chunks u ≡ some d
      → lies_in buf d ≡ true
      → ((i : ℕ) (c : Chunk) → u ≢ i → get_elem? chunks i ≡ some c → lies_in buf c ≡ false)
      → UsedAlike chunks (map (return_to buf) (set chunks u (read_to d count)))
  unfolding return_to
  return_here chunks u d count at_u inside outside i c listed = elim (Bool-cases (u == i)) [
    | inl same ↦
        let u≡i : u ≡ i = (==_iff u i).0 same in
        let d≡c : d ≡ c = some_inj d c (sym at_u ∙ ap (get_elem? chunks) u≡i ∙ listed) in
        let at_i : get_elem? (set chunks u (read_to d count)) i ≡ some (read_to d count) =
          subst (λ j. get_elem? (set chunks u (read_to d count)) j ≡ some (read_to d count)) u≡i
            (get_elem?-set_self chunks u (read_to d count) (lt_of_get_elem? chunks u d at_u)) in
        (
          return_to buf (read_to d count),
          get_elem?-map (return_to buf) (set chunks u (read_to d count)) i (read_to d count) at_i,
          back ∙ ap (λ x. x.usage_count) d≡c,
        )
    | inr other ↦
        let u≢i : u ≢ i = λ e. ground (arith, e, other) in
        (
          return_to buf c,
          get_elem?-map (return_to buf) (set chunks u (read_to d count)) i c
              (get_elem?-set_ne chunks u i (read_to d count) u≢i ∙ listed),
          rw (outside i c u≢i listed) refl,
        )
  ]
    where
      back : (return_to buf (read_to d count)).usage_count ≡ d.usage_count
      back = rw (inside) (int_pred-suc d.usage_count)

-- What a call of dvdnav_free_cache_block with the address leaves is used as the store was.
abbrev pub GivesBack : {A : Type 0} → Store A → (buf : ℕ) → Store A → Type 0
GivesBack s buf s' =
    (cache : Cache) × (dvdnav_free_cache_block s'.cache buf ≡ some cache)
    × UsedAlike s.cache.chunk cache.chunk

free_live :
    (cache : Cache) (buf : ℕ)
    → cache.freeing ≡ false
    → dvdnav_free_cache_block cache buf
      ≡ some (record cache { chunk = map (return_to buf) cache.chunk })
unfolding dvdnav_free_cache_block
free_live cache buf live = rw (live) refl

module _ {A : Type 0} (disc : ℕ → A) (dvd_read_blocks : (start size : ℕ) → Option (List A))
    (s : Store A) (h : StoreIsSound disc s) (live : s.cache.freeing ≡ false) where
  through-GivesBack :
      (sector block_count u : ℕ) (d : Chunk) (r : Readable d)
      → 0 < block_count
      → get_elem? s.cache.chunk u ≡ some d
      → covers sector block_count d ≡ true
      → GivesBack s
          (block_at r.buffer (sector - d.cache_start_sector))
          (read_ahead dvd_read_blocks sector u d r.buffer r.read s)
  unfolding read_ahead follow_sector grow_read_ahead dvdnav_free_cache_block read_count
  through-GivesBack sector block_count u d r some_blocks at_u has =
      let tests : _ = covers_lem sector block_count d has in
      let loaded : Loaded disc s.memory d = h.sound u d at_u tests.0 in
      (
        _,
        free_live (read_ahead dvd_read_blocks sector u d r.buffer r.read s).cache _ live,
        return_here (block_at r.buffer (sector - d.cache_start_sector)) s.cache.chunk u d
            (read_count dvd_read_blocks sector d r.buffer r.read s) at_u
            (lies_inside _ r.buffer d r.placed (omega arith)
              (omega (arith, tests.1, tests.3, loaded.fits, some_blocks)))
            (λ i c u≢i listed. lies_outside _ c (λ a placed.
              elsewhere a c.cache_malloc_size
                (h.apart u i d c r.buffer a u≢i at_u listed r.placed placed))),
      )
    where
      elsewhere :
          (a m : ℕ)
          → Apart r.buffer d.cache_malloc_size a m
          → (block_at r.buffer (sector - d.cache_start_sector) < a)
            ⊎ (block_at a m ≤ block_at r.buffer (sector - d.cache_start_sector))
      elsewhere a m (inl below) =
          let tests : _ = covers_lem sector block_count d has in
          inl (omega (arith, below, tests.1, tests.3, (h.sound u d at_u tests.0).fits, some_blocks))
      elsewhere a m (inr above) = inr (omega (arith, above))

  direct-GivesBack :
      (sector block_count buf : ℕ)
      → 0 < block_count
      → OutsideOfChunks disc buf block_count s.cache.chunk
      → GivesBack s buf
          (record s { memory = put_blocks s.memory buf (dvd_read_blocks sector block_count) })
  unfolding dvdnav_free_cache_block
  direct-GivesBack sector block_count buf some_blocks outside = (
    _,
    free_live s.cache buf live,
    return_elsewhere buf s.cache.chunk (λ i c listed.
        lies_outside buf c (λ a placed. apart a c.cache_malloc_size (outside i c a listed placed))),
  )
    where
      apart : (a m : ℕ) → Apart a m buf block_count → (buf < a) ⊎ (block_at a m ≤ buf)
      apart a m (inl below) = inr below
      apart a m (inr above) = inl (omega (arith, above, some_blocks))

  -- A block that was read and is freed again leaves every chunk used as often as before.
  pub dvdnav_free_cache_block-read :
      (use_read_ahead : Bool) (sector block_count buf : ℕ)
      → 0 < block_count
      → OutsideOfChunks disc buf block_count s.cache.chunk
      → (result : ℤ × ℕ) × (s' : Store A) × (dvdnav_read_cache_block dvd_read_blocks use_read_ahead
            sector block_count buf s
          ≡ value result s')
        × GivesBack s result.1 s'
  dvdnav_free_cache_block-read use_read_ahead sector block_count buf some_blocks outside =
      elim (look_cases disc dvd_read_blocks use_read_ahead sector block_count buf s h) [
        | inl past ↦ (_, _, past, direct-GivesBack sector block_count buf some_blocks outside)
        | inr (u, found, through) ↦
            let r : Readable found.at_use =
              covers-Readable disc s.memory sector block_count found.at_use
                (h.sound u found.at_use found.listed) found.has in
            (
              _,
              _,
              through
                  ∙ read_found-some disc dvd_read_blocks s sector block_count buf u found.at_use r
                      found.listed,
              through-GivesBack sector block_count u found.at_use r some_blocks found.listed
                  found.has,
            )
      ]
