-- ===== src/Remap/Lookup.antt =====
-- remap_block of remap.c: where the player is sent instead.
use libdvdnav.Prelude.{
  ℕ, ◌+◌, ◌<◌, ◌≡◌, refl, sym, ◌∙◌, arith, inl, inr, Option, none, some, get_elem?, u64, sub64,
}
use libdvdnav.Prelude.Int.{ℤ}
use libdvdnav.Remap.{Block, Map, precedes, overlaps, compare_block, point, findblock, remap_block}
use libdvdnav.Remap.Order.{IsBlock, Covers, compare_block-overlaps, overlaps_of, precedes_apart}
use libdvdnav.Remap.Search.{Answers, findblock_lem}
use libdvdnav.Remap.Nodes.{IsMap, Holds}
use libdvdnav.Remap.Sorted.{lt-trichotomy}

module _ (domain title program : ℤ) (at : ℕ) where
  overlaps→Covers :
      (b : Block)
      → compare_block (point domain title program at) b ≡ overlaps
      → Covers domain title program at b
  unfolding point Covers
  overlaps→Covers b h = compare_block-overlaps (point domain title program at) b h

  Covers→overlaps :
      (b : Block)
      → Covers domain title program at b
      → compare_block (point domain title program at) b ≡ overlaps
  unfolding point Covers
  Covers→overlaps b (d, t, p, s, e) = overlaps_of _ b d t p s e

  point-IsBlock : IsBlock (point domain title program at)
  unfolding point IsBlock
  point-IsBlock = omega arith

  -- Of two blocks in order, not both cover the point.
  one_of_two :
      (a b : Block)
      → compare_block a b ≡ precedes
      → Covers domain title program at a
      → Covers domain title program at b
      → ⊥
  unfolding Covers
  one_of_two a b h (d, t, p, s, e) (d', t', p', s', e') =
      let apart = precedes_apart a b h (sym d ∙ d') (sym t ∙ t') (sym p ∙ p') in omega arith

-- In a well-formed map at most one block covers a point.
same_position :
    (map : Map) (domain title program : ℤ) (at : ℕ) (i j : ℕ) (a b : Block)
    → IsMap map
    → i < map.nblocks
    → j < map.nblocks
    → get_elem? map.blocks i ≡ some a
    → get_elem? map.blocks j ≡ some b
    → Covers domain title program at a
    → Covers domain title program at b
    → i ≡ j
same_position map domain title program at i j a b ok l m e f c d = elim (lt-trichotomy i j) [
  | inl less ↦
      absurd (one_of_two domain title program at a b (ok.sorted.ordered i j a b less m e f) c d)
  | inr (inl same) ↦ same
  | inr (inr more) ↦
      absurd (one_of_two domain title program at b a (ok.sorted.ordered j i b a more l f e) d c)
]

covered :
    (map : Map) (domain title program : ℤ) (cblock offset i : ℕ) (b : Block) (r : Option ℕ)
    → IsMap map
    → i < map.nblocks
    → get_elem? map.blocks i ≡ some b
    → Covers domain title program (u64 (cblock + offset)) b
    → findblock map (point domain title program (u64 (cblock + offset))) ≡ some r
    → Answers map.blocks map.nblocks (point domain title program (u64 (cblock + offset))) r
    → remap_block map domain title program cblock offset ≡ some (sub64 b.end_block cblock)
unfolding remap_block Answers
covered map domain title program cblock offset i b none ok lt e cover out answer =
    absurd (answer i b lt e (Covers→overlaps domain title program _ b cover))
covered map domain title program cblock offset i b (some j) ok lt e cover out (m, c, f, over) =
    let found = overlaps→Covers domain title program _ c over in
    let same = same_position map domain title program _ i j b c ok lt m e f cover found in
    rw (remap_block, out, sym same, e) refl

uncovered :
    (map : Map) (domain title program : ℤ) (cblock offset : ℕ) (r : Option ℕ)
    → findblock map (point domain title program (u64 (cblock + offset))) ≡ some r
    → Answers map.blocks map.nblocks (point domain title program (u64 (cblock + offset))) r
    → ((b : Block) → Holds map b → ¬ Covers domain title program (u64 (cblock + offset)) b)
    → remap_block map domain title program cblock offset ≡ some offset
unfolding remap_block Answers Holds
uncovered map domain title program cblock offset none out answer bare = rw (remap_block, out) refl
uncovered map domain title program cblock offset (some j) out (m, c, f, over) bare =
    absurd (bare c (j, m, f) (overlaps→Covers domain title program _ c over))

-- In a well-formed map a position that a block covers is redirected to the end of that block, and
-- any other keeps its offset.
pub remap_block_lem :
    (map : Map) (domain title program : ℤ) (cblock offset : ℕ)
    → IsMap map
    → ((b : Block)
        → Holds map b
        → Covers domain title program (u64 (cblock + offset)) b
        → remap_block map domain title program cblock offset ≡ some (sub64 b.end_block cblock))
      × (((b : Block) → Holds map b → ¬ Covers domain title program (u64 (cblock + offset)) b)
          → remap_block map domain title program cblock offset ≡ some offset)
unfolding Holds
remap_block_lem map domain title program cblock offset ok =
    let at = u64 (cblock + offset) in
    let (r, out, answer) =
      findblock_lem map (point domain title program at) ok.sorted
        (point-IsBlock domain title program at) in
    (
      λ b (i, lt, e) cover.
          covered map domain title program cblock offset i b r ok lt e cover out answer,
      uncovered map domain title program cblock offset r out answer,
    )
