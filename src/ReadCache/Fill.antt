-- ===== src/ReadCache/Fill.antt =====
-- What a read of src/read_cache.c does to the chunks: its own and the others.
use libdvdnav.Prelude.{ℕ, zero, suc, ◌+◌, ◌<◌, ◌≡◌, ◌⊎◌, inl, inr, ap, ◌∙◌, arith, List, length}
use libdvdnav.ReadCache.State.{block_at, write}
use libdvdnav.ReadCache.Memory.{sectors, write_below, write_above, write-sectors}
use libdvdnav.ReadCache.Sound.{Filled, Apart}

below_or : (n k : ℕ) → ((j : ℕ) × (k ≡ n + j)) ⊎ (k < n)
below_or zero k = inl (k, omega arith)
below_or (suc n) zero = inr (omega arith)
below_or (suc n) (suc k) = elim (below_or n k) [
  | inl (j, e) ↦ inl (j, omega (arith, e))
  | inr h ↦ inr (omega arith)
]

module _ {A : Type 0} (disc : ℕ → A) (memory : ℕ → A) where
  pub write-Filled :
      (buffer start n m : ℕ)
      → Filled disc memory buffer start n
      → Filled disc
          (write memory (block_at buffer n) (sectors disc (start + n) m))
          buffer
          start
          (n + m)
  write-Filled buffer start n m filled k h = elim (below_or n k) [
    | inr lt ↦
        write_below memory (block_at buffer n) (block_at buffer k) (sectors disc (start + n) m)
          (omega arith)
        ∙ filled k lt
    | inl (j, e) ↦
        ap (write memory (block_at buffer n) (sectors disc (start + n) m)) (omega (arith, e))
        ∙ write-sectors memory disc (block_at buffer n) (start + n) m j (omega arith)
        ∙ ap disc (omega arith)
  ]

  pub write-Filled-Apart :
      (buffer start n at : ℕ) (blocks : List A)
      → Apart buffer n at (length blocks)
      → Filled disc memory buffer start n
      → Filled disc (write memory at blocks) buffer start n
  write-Filled-Apart buffer start n at blocks (inl below) filled k h =
      write_below memory at (block_at buffer k) blocks (omega (arith, below)) ∙ filled k h
  write-Filled-Apart buffer start n at blocks (inr above) filled k h =
      write_above memory at (block_at buffer k) blocks (omega (arith, above)) ∙ filled k h
