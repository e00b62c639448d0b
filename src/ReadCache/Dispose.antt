-- ===== src/ReadCache/Dispose.antt =====
-- When src/read_cache.c frees everything.
use libdvdnav.Prelude.{
  true, false, if◌then◌else◌, ℕ, zero, suc, ◌≡◌, ◌↔◌, refl, ap, sym, ◌∙◌, arith, none, some,
  some_inj, List, [], ◌∷◌, map, get_elem?,
}
use libdvdnav.ReadCache.State.{Chunk, Cache}
use libdvdnav.ReadCache.Allocate.{has_buffer}
use libdvdnav.ReadCache.Release.{free_chunk, any_buffer, dvdnav_read_cache_free}
use libdvdnav.ReadCache.Reserve.{in_use}

free_chunk-has_buffer : (c : Chunk) → has_buffer (free_chunk c) ≡ in_use c
unfolding free_chunk
free_chunk-has_buffer c = ground arith

any_buffer_from :
    (chunks : List Chunk)
    → any_buffer (map free_chunk chunks) ≡ false
    → (i : ℕ) (c : Chunk) → get_elem? chunks i ≡ some c
    → in_use c ≡ false
any_buffer_from [] h i c listed = absurd (cc)
any_buffer_from (x ∷ chunks) h zero c listed =
    ap in_use (sym (some_inj x c listed)) ∙ sym (free_chunk-has_buffer x) ∙ ground (arith, h)
any_buffer_from (x ∷ chunks) h (suc i) c listed =
    any_buffer_from chunks (ground (arith, h)) i c listed

any_buffer_to :
    (chunks : List Chunk)
    → ((i : ℕ) (c : Chunk) → get_elem? chunks i ≡ some c → in_use c ≡ false)
    → any_buffer (map free_chunk chunks) ≡ false
any_buffer_to [] h = refl
any_buffer_to (x ∷ chunks) h =
    rw (free_chunk-has_buffer x, h 0 x refl) (any_buffer_to chunks (λ i. h (suc i)))

-- All is freed exactly if the application holds no block of any chunk.
pub dvdnav_read_cache_free_iff :
    (self : Cache)
    → (dvdnav_read_cache_free self ≡ none)
      ↔ ((i : ℕ) (c : Chunk) → get_elem? self.chunk i ≡ some c → in_use c ≡ false)
unfolding dvdnav_read_cache_free
dvdnav_read_cache_free_iff self =
    (λ h. any_buffer_from self.chunk (gone h), λ h. rw (any_buffer_to self.chunk h) refl)
  where
    gone :
        (if any_buffer (map free_chunk self.chunk)
            then some (record self { freeing = true; chunk = map free_chunk self.chunk })
            else none)
          ≡ none
        → any_buffer (map free_chunk self.chunk) ≡ false
    gone h = ground (arith, h)
