-- ===== src/ReadCache/Preserve.antt =====
-- Reading in src/read_cache.c keeps the invariant of the cache.
use libdvdnav.Prelude.{
  ne→==, ℕ, zero, suc, ◌+◌, ◌≤◌, ◌≡◌, ◌≢◌, ◌⊎◌, inl, inr, refl, ap, arith, Option, some, List, [],
  ◌∷◌, length, get_elem?, set,
}
use libdvdnav.Prelude.Int.{ℤ, pos, negsuc, int_pred}
use libdvdnav.ReadCache.State.{block_at, write}
use libdvdnav.ReadCache.Read.{read_on, put_blocks}
use libdvdnav.ReadCache.Memory.{sectors, length-sectors}
use libdvdnav.ReadCache.Sound.{Filled, Reads, Apart}
use libdvdnav.ReadCache.Fill.{write-Filled, write-Filled-Apart}

-- An entry of a list with one place written.
pub get_elem?_of_set {ℓ} :
    {A : Type ℓ} (xs : List A) (i j : ℕ) (v c : A)
    → get_elem? (set xs i v) j ≡ some c
    → ((i ≡ j) × (c ≡ v)) ⊎ ((i ≢ j) × (get_elem? xs j ≡ some c))
get_elem?_of_set [] i j v c e = absurd (cc)
get_elem?_of_set (x ∷ xs) zero zero v c e = inl (refl, cc)
get_elem?_of_set (x ∷ xs) zero (suc j) v c e = inr (λ h. ground (arith, h), e)
get_elem?_of_set (x ∷ xs) (suc i) zero v c e = inr (λ h. ground (arith, h), e)
get_elem?_of_set (x ∷ xs) (suc i) (suc j) v c e = elim (get_elem?_of_set xs i j v c e) [
  | inl (h, e') ↦ inl (ap suc h, e')
  | inr (h, e') ↦ inr (λ k. h (omega (arith, k)), e')
]

module _ {A : Type 0} (disc : ℕ → A) where
  -- A count of blocks and the memory with them.
  pub record Progress (buffer start room n : ℕ) (before after : ℕ → A) (count : ℤ) : Type 0 where
    pub filled :
        (count ≡ negsuc 0)
        ⊎ ((m : ℕ) × (count ≡ pos m) × (m ≤ room) × Filled disc after buffer start m)
    pub kept : Filled disc after buffer start n
    pub others :
        (b start' n' : ℕ)
        → Apart b n' buffer room
        → Filled disc before b start' n'
        → Filled disc after b start' n'

  module _ (dvd_read_blocks : (start size : ℕ) → Option (List A))
      (reads : Reads disc dvd_read_blocks) where
    failed_lem :
        (buffer start room n : ℕ) (memory : ℕ → A)
        → n ≤ room
        → Filled disc memory buffer start n
        → Progress buffer start room n memory memory (int_pred (pos n))
    failed_lem buffer start room zero memory le filled = record {
      filled = inl refl;
      kept = filled;
      others = λ b start' n' apart old. old;
    }
    failed_lem buffer start room (suc n) memory le filled = record {
      filled = inr (n, refl, omega arith, λ k h. filled k (omega arith));
      kept = filled;
      others = λ b start' n' apart old. old;
    }

    some_lem :
        (buffer start room n m : ℕ) (memory : ℕ → A)
        → n + m ≤ room
        → Filled disc memory buffer start n
        → Progress buffer start room n memory
            (write memory (block_at buffer n) (sectors disc (start + n) m))
            (pos (n + length (sectors disc (start + n) m)))
    some_lem buffer start room n m memory le filled = record {
      filled = inr (
        n + m,
        ap (λ x. pos (n + x)) (length-sectors disc (start + n) m),
        le,
        write-Filled disc memory buffer start n m filled,
      );
      kept = λ k h. write-Filled disc memory buffer start n m filled k (omega (arith, h));
      others = λ b start' n' apart.
          write-Filled-Apart disc memory b start' n' (block_at buffer n)
            (sectors disc (start + n) m) (inner b n' apart);
    }
      where
        inner :
            (b n' : ℕ)
            → Apart b n' buffer room
            → Apart b n' (block_at buffer n) (length (sectors disc (start + n) m))
        inner b n' (inl below) = inl (omega (arith, below))
        inner b n' (inr above) = inr (omega (arith, above, length-sectors disc (start + n) m))

    pub read_on_lem :
        (buffer start room n size : ℕ) (memory : ℕ → A)
        → n + size ≤ room
        → Filled disc memory buffer start n
        → Progress buffer start room n memory
            (read_on dvd_read_blocks (start + n) size (block_at buffer n) n memory).0
            (read_on dvd_read_blocks (start + n) size (block_at buffer n) n memory).1
    unfolding read_on put_blocks
    read_on_lem buffer start room n zero memory le filled = record {
      filled = inr (n, refl, omega arith, filled);
      kept = filled;
      others = λ b start' n' apart old. old;
    }
    read_on_lem buffer start room n (suc size) memory le filled =
        elim (reads (start + n) (suc size)) [
          | inl failed ↦
              rw (ne→== (suc size) 0 (omega arith), failed)
                (failed_lem buffer start room n memory (omega arith) filled)
          | inr (m, small, got) ↦
              rw (ne→== (suc size) 0 (omega arith), got)
                (some_lem buffer start room n m memory (omega arith) filled)
        ]
