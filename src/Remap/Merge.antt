-- ===== src/Remap/Merge.antt =====
-- remap_add_node of remap.c with a block that overlaps one of the map.
use libdvdnav.Prelude.{
  ℕ, ◌<◌, ◌≡◌, ◌≢◌, refl, sym, ◌∙◌, ap, arith, inl, inr, ◌⊎◌, Option, none, some, List, get_elem?,
  set, length-set, get_elem?-set_self, get_elem?-set_ne,
}
use libdvdnav.Remap.{Block, Map, precedes, overlaps, compare_block, mergeblock, remap_add_node}
use libdvdnav.Remap.Order.{
  IsBlock, opposite, compare_block-opposite, compare_block_trans, Spans, mergeblock_lem,
  precedes_merged, merged_precedes,
}
use libdvdnav.Remap.Search.{IsSorted, Answers, findblock_lem, Position-cases}
use libdvdnav.Remap.Nodes.{IsMap}

eq-cases : (p i : ℕ) → (p ≡ i) ⊎ (p ≢ i)
eq-cases p i = ground arith

module _ (blocks : List Block) (n i : ℕ) (b block : Block) (sorted : IsSorted blocks n) (lt : i < n)
    (at : get_elem? blocks i ≡ some b) (ok : IsBlock block)
    (over : compare_block block b ≡ overlaps)
    (only : (j : ℕ) (c : Block)
      → j < n
      → get_elem? blocks j ≡ some c
      → compare_block block c ≡ overlaps
      → j ≡ i) where
  over' : compare_block b block ≡ overlaps
  unfolding opposite
  over' = compare_block-opposite b block (sorted.valid i b lt at) ok ∙ ap opposite over

  -- An earlier entry stands before the new block too, and the new block before a later one.
  earlier :
      (j : ℕ) (c : Block) → j < i → get_elem? blocks j ≡ some c → compare_block c block ≡ precedes
  unfolding opposite
  earlier j c less e = elim (Position-cases (compare_block block c)) [
    | inl before ↦
        let wrong =
          compare_block_trans block c b (sorted.valid j c (omega arith) e) before
            (sorted.ordered j i c b less lt e at) in
        absurd (cc (wrong, over))
    | inr (inl same) ↦ absurd (omega (arith, only j c (omega arith) e same))
    | inr (inr after) ↦
        compare_block-opposite c block (sorted.valid j c (omega arith) e) ok ∙ ap opposite after
  ]

  later :
      (j : ℕ) (c : Block)
      → i < j
      → j < n
      → get_elem? blocks j ≡ some c
      → compare_block block c ≡ precedes
  unfolding opposite
  later j c less m e = elim (Position-cases (compare_block block c)) [
    | inl before ↦ before
    | inr (inl same) ↦ absurd (omega (arith, only j c m e same))
    | inr (inr after) ↦
        let c_first =
          compare_block-opposite c block (sorted.valid j c m e) ok ∙ ap opposite after in
        let wrong =
          compare_block_trans b c block (sorted.valid j c m e) (sorted.ordered i j b c less m at e)
            c_first in
        absurd (cc (wrong, over'))
  ]

  data Changed (p : ℕ) (c : Block) : Type 0 where
    merged : p ≡ i → c ≡ mergeblock b block → Changed p c
    kept : p ≢ i → get_elem? blocks p ≡ some c → Changed p c

  changed :
      (p : ℕ) (c : Block) → get_elem? (set blocks i (mergeblock b block)) p ≡ some c → Changed p c
  changed p c e = elim (eq-cases p i) [
    | inl same ↦ merged same (
        cc (
          e,
          same,
          get_elem?-set_self blocks i (mergeblock b block) (omega (arith, sorted.allocated, lt)),
        ))
    | inr differs ↦
        kept differs
          (sym (get_elem?-set_ne blocks i p (mergeblock b block) (λ same. differs (sym same))) ∙ e)
  ]

  pair_ordered :
      (p q : ℕ) (c d : Block)
      → p < q
      → q < n
      → Changed p c
      → Changed q d
      → compare_block c d ≡ precedes
  pair_ordered p q c d less m (merged same is) (merged also _) = absurd (omega arith)
  pair_ordered p q c d less m (merged same is) (kept _ f) = rw is (
      merged_precedes b block _ d (mergeblock_lem b block) over'
        (sorted.ordered i q b d (omega arith) m at f) (later q d (omega arith) m f))
  pair_ordered p q c d less m (kept _ e) (merged same is) = rw is (
      precedes_merged c b block _ (mergeblock_lem b block) over'
        (sorted.ordered p i c b (omega arith) lt e at) (earlier p c (omega arith) e))
  pair_ordered p q c d less m (kept _ e) (kept _ f) = sorted.ordered p q c d less m e f

  Changed-IsBlock : (p : ℕ) (c : Block) → p < n → Changed p c → IsBlock c
  unfolding IsBlock
  Changed-IsBlock p c m (merged same is) =
      let spans = mergeblock_lem b block in
      rw is (omega (arith, spans.start_block, spans.end_block, ok))
  Changed-IsBlock p c m (kept _ e) = sorted.valid p c m e

  pub merged-IsSorted : IsSorted (set blocks i (mergeblock b block)) n
  merged-IsSorted = record {
    allocated = omega (arith, length-set blocks i (mergeblock b block), sorted.allocated);
    valid = λ p c m e. Changed-IsBlock p c m (changed p c e);
    ordered = λ p q c d less m e f. pair_ordered p q c d less m (changed p c e) (changed q d f);
  }

answer_position :
    (blocks : List Block) (n i : ℕ) (block : Block) (r : Option ℕ) (b : Block)
    → i < n
    → get_elem? blocks i ≡ some b
    → compare_block block b ≡ overlaps
    → ((j : ℕ) (c : Block)
        → j < n
        → get_elem? blocks j ≡ some c
        → compare_block block c ≡ overlaps
        → j ≡ i)
    → Answers blocks n block r
    → r ≡ some i
unfolding Answers
answer_position blocks n i block none b lt at over only answer = absurd (answer i b lt at over)
answer_position blocks n i block (some j) b lt at over only (m, c, e, same) =
    ap some (only j c m e same)

-- Adding a block that overlaps exactly one block of a well-formed map widens that block to span
-- both, changes no other, and keeps the map well-formed.
pub remap_add_node_merge :
    (fresh : Option (List Block)) (map : Map) (i : ℕ) (b block : Block)
    → IsMap map
    → IsBlock block
    → i < map.nblocks
    → get_elem? map.blocks i ≡ some b
    → compare_block block b ≡ overlaps
    → ((j : ℕ) (c : Block)
        → j < map.nblocks
        → get_elem? map.blocks j ≡ some c
        → compare_block block c ≡ overlaps
        → j ≡ i)
    → (map' : Map) × (merged : Block) × (remap_add_node fresh map block ≡ some map')
      × IsMap map'
      × (map'.nblocks ≡ map.nblocks)
      × (get_elem? map'.blocks i ≡ some merged)
      × Spans b block merged
      × ((j : ℕ) → j ≢ i → get_elem? map'.blocks j ≡ get_elem? map.blocks j)
unfolding remap_add_node
remap_add_node_merge fresh map i b block ok valid lt at over only =
    let (r, out, answer) = findblock_lem map block ok.sorted valid in
    let here =
      out ∙ ap some (answer_position map.blocks map.nblocks i block r b lt at over only answer) in
    (
      record map { blocks = set map.blocks i (mergeblock b block) },
      mergeblock b block,
      rw (remap_add_node, here, at) refl,
      record {
        sorted = merged-IsSorted map.blocks map.nblocks i b block ok.sorted lt at valid over only;
        size = length-set map.blocks i (mergeblock b block) ∙ ok.size;
      },
      refl,
      get_elem?-set_self map.blocks i (mergeblock b block) (omega (arith, ok.sorted.allocated)),
      mergeblock_lem b block,
      λ j differs.
          get_elem?-set_ne map.blocks i j (mergeblock b block) (λ same. differs (sym same)),
    )
