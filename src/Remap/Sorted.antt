-- ===== src/Remap/Sorted.antt =====
-- The insertion of remap_add_node in remap.c keeps the map sorted.
use libdvdnav.Prelude.{
  ℕ, zero, suc, ◌+◌, ◌-◌, ◌≤◌, ◌<◌, ◌≡◌, ◌≢◌, refl, sym, ◌∙◌, ap, arith, inl, inr, ◌⊎◌, some, List,
  get_elem?, length, get_elem?_of_lt,
}
use libdvdnav.Remap.{Block, precedes, overlaps, compare_block}
use libdvdnav.Remap.Order.{IsBlock, opposite, compare_block-opposite, compare_block_trans}
use libdvdnav.Remap.Search.{IsSorted, Position-cases, le-cases}
use libdvdnav.Remap.Insert.{Inserted}

pub lt-trichotomy : (i k : ℕ) → (i < k) ⊎ ((i ≡ k) ⊎ (k < i))
lt-trichotomy i k = ground arith

module _ (old : List Block) (n : ℕ) (block : Block) (k : ℕ) (new : List Block)
    (ins : Inserted old n block k new) where
  -- Where an entry of the new array comes from.
  pub data Origin (i : ℕ) (b : Block) : Type 0 where
    lower : i < k → get_elem? old i ≡ some b → Origin i b
    itself : i ≡ k → b ≡ block → Origin i b
    raised : (q : ℕ) → i ≡ suc q → k ≤ q → q < n → get_elem? old q ≡ some b → Origin i b

  at-cases : (i : ℕ) → (i < k) ⊎ ((i ≡ k) ⊎ ((q : ℕ) × (i ≡ suc q) × (k ≤ q)))
  at-cases zero = ground arith
  at-cases (suc q) = elim (lt-trichotomy (suc q) k) [
    | inl below ↦ inl below
    | inr (inl here) ↦ inr (inl here)
    | inr (inr above) ↦ inr (inr (q, refl, omega arith))
  ]

  pub origin : (i : ℕ) (b : Block) → i < suc n → get_elem? new i ≡ some b → Origin i b
  origin i b lt e = elim (at-cases i) [
    | inl low ↦ lower low (sym (ins.room.lower i low) ∙ e)
    | inr (inl same) ↦ itself same (cc (ins.here, e, same))
    | inr (inr (q, up, ge)) ↦
        raised q up ge (omega arith)
          (sym (ins.room.raised q ge (omega arith)) ∙ ap (get_elem? new) (sym up) ∙ e)
  ]

  module _ (sorted : IsSorted old n) (ok : IsBlock block)
      (apart : (i : ℕ) (b : Block)
        → i < n
        → get_elem? old i ≡ some b
        → compare_block block b ≢ overlaps) where
    -- The entry just below the new block stands before it.
    just_below :
        (q : ℕ) (b : Block)
        → k ≡ suc q
        → get_elem? old q ≡ some b
        → compare_block b block ≡ precedes
    unfolding opposite
    just_below q b e f = elim (Position-cases (compare_block block b)) [
      | inl before ↦ absurd (ins.stop q b e f before)
      | inr (inl over) ↦ absurd (apart q b (omega (arith, ins.room.inside)) f over)
      | inr (inr after) ↦
          compare_block-opposite b block (sorted.valid q b (omega (arith, ins.room.inside)) f) ok
          ∙ ap opposite after
    ]

    before_new :
        (i : ℕ) (b : Block) → i < k → get_elem? old i ≡ some b → compare_block b block ≡ precedes
    before_new i b lt e =
        let top : k ≡ suc (k - 1) = omega arith in
        let (c, f) =
          get_elem?_of_lt old (k - 1) (omega (arith, ins.room.inside, sorted.allocated)) in
        elim (le-cases i (k - 1) (omega arith)) [
          | inl same ↦ just_below i b (omega arith) e
          | inr less ↦
              compare_block_trans b c block
                (sorted.valid (k - 1) c (omega (arith, ins.room.inside)) f)
                (sorted.ordered i (k - 1) b c less (omega (arith, ins.room.inside)) e f)
                (just_below (k - 1) c top f)
        ]

    pair : (i j : ℕ) (a b : Block) → i < j → Origin i a → Origin j b → compare_block a b ≡ precedes
    pair i j a b lt (lower l e) (lower m f) =
        sorted.ordered i j a b lt (omega (arith, ins.room.inside)) e f
    pair i j a b lt (lower l e) (itself same is) = rw is (before_new i a l e)
    pair i j a b lt (lower l e) (raised q up ge m f) = sorted.ordered i q a b (omega arith) m e f
    pair i j a b lt (itself same is) (lower m f) = absurd (omega arith)
    pair i j a b lt (itself same is) (itself also _) = absurd (omega arith)
    pair i j a b lt (itself same is) (raised q up ge m f) = rw is (ins.room.above q b ge m f)
    pair i j a b lt (raised p up ge m e) (lower l f) = absurd (omega arith)
    pair i j a b lt (raised p up ge m e) (itself same is) = absurd (omega arith)
    pair i j a b lt (raised p up ge m e) (raised q up' ge' m' f) =
        sorted.ordered p q a b (omega arith) m' e f

    block_of : (i : ℕ) (b : Block) → Origin i b → IsBlock b
    block_of i b (lower l e) = sorted.valid i b (omega (arith, ins.room.inside)) e
    block_of i b (itself same is) = rw is ok
    block_of i b (raised q up ge m e) = sorted.valid q b m e

    pub inserted-IsSorted : n < length old → IsSorted new (n + 1)
    inserted-IsSorted fits = record {
      allocated = omega (arith, ins.room.size);
      valid = λ i b lt e. block_of i b (origin i b (omega arith) e);
      ordered = λ i j a b lt m e f.
          pair i j a b lt (origin i a (omega arith) e) (origin j b (omega arith) f);
    }
