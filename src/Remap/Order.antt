-- ===== src/Remap/Order.antt =====
-- compare_block of remap.c as an order of blocks.
use libdvdnav.Prelude.{◌<◌, min, max, ℕ, ◌≤◌, ◌≡◌, arith}
use libdvdnav.Prelude.Int.{ℤ, pos, negsuc}
use libdvdnav.Remap.{
  Block, Position, precedes, overlaps, follows, by_field, by_range, compare_block, mergeblock,
}

-- The range of a block is not turned round.
unfoldable pub IsBlock : Block → Type 0
IsBlock b = b.start_block ≤ b.end_block

unfoldable pub opposite : Position → Position
opposite precedes = follows
opposite overlaps = overlaps
opposite follows = precedes

by_field-opposite :
    (a b : ℤ) (p q : Position) → p ≡ opposite q → by_field a b p ≡ opposite (by_field b a q)
unfolding opposite
by_field-opposite (pos a) (pos b) p q h = ground arith
by_field-opposite (pos a) (negsuc b) p q h = ground arith
by_field-opposite (negsuc a) (pos b) p q h = ground arith
by_field-opposite (negsuc a) (negsuc b) p q h = ground arith

by_field_trans :
    (a b c : ℤ) (p q r : Position)
    → (p ≡ precedes → q ≡ precedes → r ≡ precedes)
    → by_field a b p ≡ precedes
    → by_field b c q ≡ precedes
    → by_field a c r ≡ precedes
by_field_trans (pos a) (pos b) (pos c) p q r h f g = ground arith
by_field_trans (pos a) (pos b) (negsuc c) p q r h f g = ground arith
by_field_trans (pos a) (negsuc b) c p q r h f g = ground arith
by_field_trans (negsuc a) (pos b) (pos c) p q r h f g = ground arith
by_field_trans (negsuc a) (pos b) (negsuc c) p q r h f g = ground arith
by_field_trans (negsuc a) (negsuc b) (pos c) p q r h f g = ground arith
by_field_trans (negsuc a) (negsuc b) (negsuc c) p q r h f g = ground arith

by_range-opposite : (a b : Block) → IsBlock a → IsBlock b → by_range a b ≡ opposite (by_range b a)
unfolding opposite IsBlock
by_range-opposite a b v w = ground arith

by_range_trans :
    (a b c : Block)
    → IsBlock b
    → by_range a b ≡ precedes
    → by_range b c ≡ precedes
    → by_range a c ≡ precedes
unfolding IsBlock
by_range_trans a b c v p q = ground arith

pub compare_block-opposite :
    (a b : Block) → IsBlock a → IsBlock b → compare_block a b ≡ opposite (compare_block b a)
unfolding compare_block
compare_block-opposite a b v w = by_field-opposite a.domain b.domain _ _ (
    by_field-opposite a.title b.title _ _
      (by_field-opposite a.program b.program _ _ (by_range-opposite a b v w)))

pub compare_block_trans :
    (a b c : Block)
    → IsBlock b
    → compare_block a b ≡ precedes
    → compare_block b c ≡ precedes
    → compare_block a c ≡ precedes
unfolding compare_block
compare_block_trans a b c v p q =
    by_field_trans a.domain b.domain c.domain _ _ _
      (by_field_trans a.title b.title c.title _ _ _
        (by_field_trans a.program b.program c.program _ _ _ (by_range_trans a b c v)))
      p q

-- A point of the disc lies in the range of a block.
unfoldable pub Covers : ℤ → ℤ → ℤ → ℕ → Block → Type 0
Covers domain title program at b =
    (domain ≡ b.domain)
    × (title ≡ b.title)
    × (program ≡ b.program)
    × (b.start_block ≤ at)
    × (at ≤ b.end_block)

by_field-overlaps : (a b : ℤ) (p : Position) → by_field a b p ≡ overlaps → (a ≡ b) × (p ≡ overlaps)
by_field-overlaps (pos a) (pos b) p h = ground arith
by_field-overlaps (pos a) (negsuc b) p h = ground arith
by_field-overlaps (negsuc a) (pos b) p h = ground arith
by_field-overlaps (negsuc a) (negsuc b) p h = ground arith

by_field_same : (a : ℤ) (p : Position) → by_field a a p ≡ p
by_field_same (pos a) p = ground arith
by_field_same (negsuc a) p = ground arith

by_field_both :
    (a b : ℤ) (p q r : Position)
    → by_field a b p ≡ precedes
    → by_field a b q ≡ precedes
    → (p ≡ precedes → q ≡ precedes → r ≡ precedes)
    → by_field a b r ≡ precedes
by_field_both (pos a) (pos b) p q r h k f = ground arith
by_field_both (pos a) (negsuc b) p q r h k f = ground arith
by_field_both (negsuc a) (pos b) p q r h k f = ground arith
by_field_both (negsuc a) (negsuc b) p q r h k f = ground arith

-- Blocks that overlap have the same fields and a common point.
pub compare_block-overlaps :
    (a b : Block)
    → compare_block a b ≡ overlaps
    → (a.domain ≡ b.domain)
      × (a.title ≡ b.title)
      × (a.program ≡ b.program)
      × (b.start_block ≤ a.end_block)
      × (a.start_block ≤ b.end_block)
unfolding compare_block
compare_block-overlaps a b h =
    let (d, h1) = by_field-overlaps a.domain b.domain _ h in
    let (t, h2) = by_field-overlaps a.title b.title _ h1 in
    let (p, h3) = by_field-overlaps a.program b.program _ h2 in
    (d, t, p, ground arith, ground arith)

pub overlaps_of :
    (a b : Block)
    → a.domain ≡ b.domain
    → a.title ≡ b.title
    → a.program ≡ b.program
    → b.start_block ≤ a.end_block
    → a.start_block ≤ b.end_block
    → compare_block a b ≡ overlaps
unfolding compare_block
overlaps_of a b d t p s e =
    rw (d, t, p, by_field_same b.domain, by_field_same b.title, by_field_same b.program)
      (ground arith)

-- `m` has the fields of `a` and spans `a` and `b`.
pub record Spans (a b m : Block) : Type 0 where
  pub domain : m.domain ≡ a.domain
  pub title : m.title ≡ a.title
  pub program : m.program ≡ a.program
  pub start_block : m.start_block ≡ min b.start_block a.start_block
  pub end_block : m.end_block ≡ max b.end_block a.end_block

pub mergeblock_lem : (a b : Block) → Spans a b (mergeblock a b)
unfolding mergeblock
mergeblock_lem a b = record {
  domain = ground arith;
  title = ground arith;
  program = ground arith;
  start_block = ground arith;
  end_block = ground arith;
}

-- What stands before two overlapping blocks stands before the merged one.
pub precedes_merged :
    (c a b m : Block)
    → Spans a b m
    → compare_block a b ≡ overlaps
    → compare_block c a ≡ precedes
    → compare_block c b ≡ precedes
    → compare_block c m ≡ precedes
unfolding compare_block
precedes_merged c a b m spans o h k =
    let (d, t, p, _, _) = compare_block-overlaps a b o in
    rw (spans.domain, spans.title, spans.program)
      (by_field_both c.domain a.domain _
        (by_field c.title b.title (by_field c.program b.program (by_range c b))) _ h (rw d k)
        (λ h1 k1.
          by_field_both c.title a.title _ (by_field c.program b.program (by_range c b)) _ h1
            (rw t k1)
            (λ h2 k2.
              by_field_both c.program a.program _ (by_range c b) _ h2 (rw p k2)
                (λ h3 k3. ground (arith, spans.start_block)))))

pub merged_precedes :
    (a b m c : Block)
    → Spans a b m
    → compare_block a b ≡ overlaps
    → compare_block a c ≡ precedes
    → compare_block b c ≡ precedes
    → compare_block m c ≡ precedes
unfolding compare_block
merged_precedes a b m c spans o h k =
    let (d, t, p, _, _) = compare_block-overlaps a b o in
    rw (spans.domain, spans.title, spans.program)
      (by_field_both a.domain c.domain _
        (by_field b.title c.title (by_field b.program c.program (by_range b c))) _ h (rw d k)
        (λ h1 k1.
          by_field_both a.title c.title _ (by_field b.program c.program (by_range b c)) _ h1
            (rw t k1)
            (λ h2 k2.
              by_field_both a.program c.program _ (by_range b c) _ h2 (rw p k2)
                (λ h3 k3. ground (arith, spans.end_block)))))

-- A block before another one with the same fields ends before that one begins.
pub precedes_apart :
    (a b : Block)
    → compare_block a b ≡ precedes
    → a.domain ≡ b.domain
    → a.title ≡ b.title
    → a.program ≡ b.program
    → a.end_block < b.start_block
unfolding compare_block
precedes_apart a b h d t p =
    let range : by_range a b ≡ precedes =
      rw (d, t, p, by_field_same b.domain, by_field_same b.title, by_field_same b.program) at h in
    ground arith
