-- ===== src/ReadCache/Start.antt =====
-- A new cache of src/read_cache.c, and one that was cleared, are sound.
use libdvdnav.Prelude.{
  ℕ, zero, suc, ◌≡◌, refl, ap, ◌∙◌, subst, sym, arith, none, some, List, [], ◌∷◌, map, length,
  get_elem?,
}
use libdvdnav.ReadCache.State.{
  Chunk, Store, clear_chunk, empty_chunk, dvdnav_read_cache_clear, dvdnav_read_cache_new,
}
use libdvdnav.ReadCache.Sound.{Apart, BuffersAreApart, StoreIsSound}

length-map {ℓ κ} :
    {A : Type ℓ} {B : Type κ} (f : A → B) (xs : List A) → length (map f xs) ≡ length xs
length-map f [] = refl
length-map f (x ∷ xs) = ap suc (length-map f xs)

-- An entry of a mapped list comes from an entry.
pub get_elem?_of_map {ℓ κ} :
    {A : Type ℓ} {B : Type κ} (f : A → B) (xs : List A) (i : ℕ) (b : B)
    → get_elem? (map f xs) i ≡ some b
    → (a : A) × (get_elem? xs i ≡ some a) × (f a ≡ b)
get_elem?_of_map f [] i b e = absurd (cc)
get_elem?_of_map f (x ∷ xs) zero b e = (x, refl, cc)
get_elem?_of_map f (x ∷ xs) (suc i) b e = get_elem?_of_map f xs i b e

cleared_apart :
    (chunks : List Chunk) → BuffersAreApart chunks → BuffersAreApart (map clear_chunk chunks)
unfolding clear_chunk
cleared_apart chunks apart i j c d a b ne at_i at_j at_a at_b =
    let (c', old_i, is_c) = get_elem?_of_map clear_chunk chunks i c at_i in
    let (d', old_j, is_d) = get_elem?_of_map clear_chunk chunks j d at_j in
    let old : _ =
      apart i j c' d' a b ne old_i old_j (ap (λ x. x.cache_buffer) is_c ∙ at_a)
        (ap (λ x. x.cache_buffer) is_d ∙ at_b) in
    subst (λ x. Apart a x.cache_malloc_size b d.cache_malloc_size) is_c
      (subst (λ y. Apart a (clear_chunk c').cache_malloc_size b y.cache_malloc_size) is_d old)

-- After a clear no chunk is valid.
pub dvdnav_read_cache_clear-StoreIsSound :
    {A : Type 0} (disc disc' : ℕ → A) (s : Store A)
    → StoreIsSound disc s
    → StoreIsSound disc' (record s { cache = dvdnav_read_cache_clear s.cache })
unfolding dvdnav_read_cache_clear clear_chunk
dvdnav_read_cache_clear-StoreIsSound disc disc' s h = record {
  sound = λ i c listed valid.
      let (c', old, is_c) = get_elem?_of_map clear_chunk s.cache.chunk i c listed in
      absurd (cc (ap (λ x. x.cache_valid) is_c, valid));
  apart = cleared_apart s.cache.chunk h.apart;
  at_current = omega (arith, h.at_current, length-map clear_chunk s.cache.chunk);
  ahead = h.ahead;
}

pub new_chunk_bare :
    (raw : List Chunk) (i : ℕ) (c : Chunk)
    → get_elem? (dvdnav_read_cache_new raw).chunk i ≡ some c
    → c.cache_buffer ≡ none
unfolding dvdnav_read_cache_new dvdnav_read_cache_clear empty_chunk
new_chunk_bare raw i c listed =
    let (c', old, is_c) = get_elem?_of_map empty_chunk (map clear_chunk raw) i c listed in
    ap (λ x. x.cache_buffer) (sym is_c)

-- A new cache is sound, whatever the memory held.
pub dvdnav_read_cache_new-StoreIsSound :
    {A : Type 0} (disc : ℕ → A) (raw : List Chunk) (memory : ℕ → A)
    → length raw ≡ 10
    → StoreIsSound disc (record { cache = dvdnav_read_cache_new raw; memory = memory })
unfolding dvdnav_read_cache_new dvdnav_read_cache_clear clear_chunk empty_chunk
dvdnav_read_cache_new-StoreIsSound disc raw memory ten = record {
  sound = λ i c listed valid.
      let (c', old, is_c) = get_elem?_of_map empty_chunk (map clear_chunk raw) i c listed in
      let (c'', older, was) = get_elem?_of_map clear_chunk raw i c' old in
      absurd (cc (ap (λ x. x.cache_valid) is_c, ap (λ x. x.cache_valid) was, valid));
  apart = λ i j c d a b ne at_i at_j at_a at_b. absurd (cc (new_chunk_bare raw i c at_i, at_a));
  at_current =
      omega (arith, ten, length-map clear_chunk raw, length-map empty_chunk (map clear_chunk raw));
  ahead = (omega arith, omega arith);
}
