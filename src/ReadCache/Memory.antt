-- ===== src/ReadCache/Memory.antt =====
-- What a read of src/read_cache.c leaves in the memory, block by block.
use libdvdnav.Prelude.{
  ℕ, zero, suc, ◌+◌, ◌<◌, ◌≤◌, ◌≡◌, refl, ap, ◌∙◌, arith, List, [], ◌∷◌, length, ne→==, eq→==,
}
use libdvdnav.ReadCache.State.{block_len, block_at, write}

module _ {A : Type 0} where
  -- The blocks of the disc from a sector on.
  abbrev pub sectors : (disc : ℕ → A) (start n : ℕ) → List A
  sectors disc start zero = []
  sectors disc start (suc n) = disc start ∷ sectors disc (suc start) n

  pub length-sectors : (disc : ℕ → A) (start n : ℕ) → length (sectors disc start n) ≡ n
  length-sectors disc start zero = refl
  length-sectors disc start (suc n) = ap suc (length-sectors disc (suc start) n)

  pub write_below :
      (memory : ℕ → A) (at a : ℕ) (blocks : List A) → a < at → write memory at blocks a ≡ memory a
  unfolding write
  write_below memory at a [] h = refl
  write_below memory at a (b ∷ blocks) h =
      let rest : write memory (at + block_len) blocks a ≡ memory a =
        write_below memory (at + block_len) a blocks (omega arith) in
      rw (ne→== a at (omega arith)) rest

  pub write_above :
      (memory : ℕ → A) (at a : ℕ) (blocks : List A)
      → block_at at (length blocks) ≤ a
      → write memory at blocks a ≡ memory a
  unfolding write
  write_above memory at a [] h = refl
  write_above memory at a (b ∷ blocks) h =
      let rest : write memory (at + block_len) blocks a ≡ memory a =
        write_above memory (at + block_len) a blocks (omega arith) in
      rw (ne→== a at (omega arith)) rest

  pub write-sectors :
      (memory : ℕ → A) (disc : ℕ → A) (at start n k : ℕ)
      → k < n
      → write memory at (sectors disc start n) (block_at at k) ≡ disc (start + k)
  unfolding write
  write-sectors memory disc at start zero k h = absurd (omega arith)
  write-sectors memory disc at start (suc n) zero h =
      let here : disc start ≡ disc (start + 0) = ap disc (omega arith) in
      rw (eq→== (block_at at 0) at (omega arith)) here
  write-sectors memory disc at start (suc n) (suc k) h =
      let rest : write memory (at + block_len) (sectors disc (suc start) n)
            (block_at (at + block_len) k)
          ≡ disc (suc start + k) =
        write-sectors memory disc (at + block_len) (suc start) n k (omega arith) in
      let shift : block_at at (suc k) ≡ block_at (at + block_len) k = omega arith in
      let next : suc start + k ≡ start + suc k = omega arith in
      let moved : write memory (at + block_len) (sectors disc (suc start) n) (block_at at (suc k))
          ≡ disc (start + suc k) =
        ap (write memory (at + block_len) (sectors disc (suc start) n)) shift
        ∙ rest
        ∙ ap disc next in
      rw (ne→== (block_at at (suc k)) at (omega arith)) moved
