-- ===== src/Remap/Tests.antt =====
-- The block map of remap.c on small maps: tests, and uses of the theorems.
use libdvdnav.Prelude.{
  ℕ, zero, suc, ◌+◌, ◌<◌, ◌≡◌, ◌⊎◌, refl, inl, inr, arith, false, Option, none, some, List, [], ◌∷◌,
  replicate, get_elem?, ◌≢◌, u64, sub64,
}
use libdvdnav.Prelude.Int.{pos, negsuc}
use libdvdnav.Remap.{
  Block, Map, remap_new, compare_block, precedes, overlaps, search_block, findblock, mergeblock,
  store, insert_block, reserve, add_new, remap_add_node, point, remap_block,
}
use libdvdnav.Remap.Order.{IsBlock, Spans, Covers}
use libdvdnav.Remap.Search.{Answers, findblock_lem}
use libdvdnav.Remap.Nodes.{IsMap, Holds, IsApart, Added, remap_add_node_new}
use libdvdnav.Remap.Merge.{remap_add_node_merge}
use libdvdnav.Remap.Lookup.{remap_block_lem}

abbrev title_1 : ℕ → ℕ → Block
title_1 first last = record {
  domain = pos 2;
  title = pos 1;
  program = negsuc 0;
  start_block = first;
  end_block = last;
}

abbrev zeros : List Block
zeros = replicate 20 (title_1 0 0)

abbrev two_blocks : Map
two_blocks = record {
  maxblocks = 2;
  nblocks = 2;
  debug = false;
  blocks = title_1 10 19 ∷ title_1 30 39 ∷ [];
}

two_blocks-IsMap : IsMap two_blocks
unfolding IsBlock compare_block
two_blocks-IsMap = record {
  sorted = record {
    allocated = omega arith;
    valid = λ i b lt e. entry i b e;
    ordered = λ i j a b lt m e f. in_order i j a b lt e f;
  };
  size = refl;
}
  where
    entry : (i : ℕ) (b : Block) → get_elem? two_blocks.blocks i ≡ some b → IsBlock b
    entry zero b e = ground (arith, e)
    entry (suc zero) b e = ground (arith, e)
    entry (suc (suc i)) b e = absurd (cc)

    in_order :
        (i j : ℕ) (a b : Block)
        → i < j
        → get_elem? two_blocks.blocks i ≡ some a
        → get_elem? two_blocks.blocks j ≡ some b
        → compare_block a b ≡ precedes
    in_order zero zero a b lt e f = absurd (omega arith)
    in_order zero (suc zero) a b lt e f = ground (arith, e, f)
    in_order zero (suc (suc j)) a b lt e f = absurd (cc)
    in_order (suc zero) zero a b lt e f = absurd (omega arith)
    in_order (suc zero) (suc zero) a b lt e f = absurd (omega arith)
    in_order (suc zero) (suc (suc j)) a b lt e f = absurd (cc)
    in_order (suc (suc i)) j a b lt e f = absurd (cc)

-- A block that spans the gap is merged with one of the two, and then overlaps the other.
merge_overlaps :
    remap_add_node none two_blocks (title_1 15 35)
    ≡ some (record two_blocks { blocks = title_1 10 35 ∷ title_1 30 39 ∷ [] })
unfolding remap_add_node findblock search_block compare_block mergeblock
merge_overlaps = refl

-- After a failed `realloc` the next search reads from NULL.
add_fails :
    remap_add_node none two_blocks (title_1 50 59) ≡ some (record two_blocks { blocks = [] })
unfolding remap_add_node findblock search_block compare_block reserve add_new
add_fails = refl

next_faults : remap_block (record two_blocks { blocks = [] }) (pos 2) (pos 1) (negsuc 0) 0 5 ≡ none
unfolding remap_block findblock search_block
next_faults = refl

first_block :
    remap_add_node (some zeros) remap_new (title_1 5 9)
    ≡ some (record {
      maxblocks = 20;
      nblocks = 1;
      debug = false;
      blocks = title_1 5 9 ∷ replicate 19 (title_1 0 0);
    })
unfolding remap_add_node remap_new findblock search_block reserve add_new insert_block store
first_block = refl

findblock_lem_example :
    (r : Option ℕ) × (findblock two_blocks (title_1 12 12) ≡ some r)
    × Answers two_blocks.blocks two_blocks.nblocks (title_1 12 12) r
unfolding IsBlock
findblock_lem_example =
    findblock_lem two_blocks (title_1 12 12) two_blocks-IsMap.sorted (omega arith)

two_entries :
    (i : ℕ) (b : Block)
    → get_elem? two_blocks.blocks i ≡ some b
    → ((i ≡ 0) × (b ≡ title_1 10 19)) ⊎ ((i ≡ 1) × (b ≡ title_1 30 39))
two_entries zero b e = inl (refl, cc)
two_entries (suc zero) b e = inr (refl, cc)
two_entries (suc (suc i)) b e = absurd (cc)

gap-IsApart : IsApart two_blocks (title_1 20 29)
unfolding IsApart Holds compare_block
gap-IsApart b (i, lt, e) same = elim (two_entries i b e) [
  | inl (_, is) ↦ ground (arith, is, same)
  | inr (_, is) ↦ ground (arith, is, same)
]

remap_add_node_new_example :
    (map' : Map) × (remap_add_node (some zeros) two_blocks (title_1 20 29) ≡ some map')
    × Added two_blocks (title_1 20 29) map'
unfolding IsBlock
remap_add_node_new_example =
    remap_add_node_new two_blocks (title_1 20 29) zeros two_blocks-IsMap (omega arith) gap-IsApart
      refl

only_first :
    (j : ℕ) (c : Block)
    → j < 2
    → get_elem? two_blocks.blocks j ≡ some c
    → compare_block (title_1 15 25) c ≡ overlaps
    → j ≡ 0
unfolding compare_block
only_first j c lt e same = elim (two_entries j c e) [
  | inl (here, _) ↦ here
  | inr (_, is) ↦ ground (arith, is, same)
]

over_first : compare_block (title_1 15 25) (title_1 10 19) ≡ overlaps
unfolding compare_block
over_first = refl

remap_add_node_merge_example :
    (map' : Map) × (merged : Block) × (remap_add_node none two_blocks (title_1 15 25) ≡ some map')
    × IsMap map'
    × (map'.nblocks ≡ 2)
    × (get_elem? map'.blocks 0 ≡ some merged)
    × Spans (title_1 10 19) (title_1 15 25) merged
    × ((j : ℕ) → j ≢ 0 → get_elem? map'.blocks j ≡ get_elem? two_blocks.blocks j)
unfolding IsBlock
remap_add_node_merge_example =
    remap_add_node_merge none two_blocks 0 (title_1 10 19) (title_1 15 25) two_blocks-IsMap
      (omega arith) (omega arith) refl over_first only_first

remap_block_lem_example :
    ((b : Block)
      → Holds two_blocks b
      → Covers (pos 2) (pos 1) (negsuc 0) (u64 (3 + 9)) b
      → remap_block two_blocks (pos 2) (pos 1) (negsuc 0) 3 9 ≡ some (sub64 b.end_block 3))
    × (((b : Block) → Holds two_blocks b → ¬ Covers (pos 2) (pos 1) (negsuc 0) (u64 (3 + 9)) b)
        → remap_block two_blocks (pos 2) (pos 1) (negsuc 0) 3 9 ≡ some 9)
remap_block_lem_example = remap_block_lem two_blocks (pos 2) (pos 1) (negsuc 0) 3 9 two_blocks-IsMap

redirected : remap_block two_blocks (pos 2) (pos 1) (negsuc 0) 3 9 ≡ some 16
unfolding remap_block findblock search_block compare_block point
redirected = refl
