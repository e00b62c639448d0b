-- ===== src/Remap.antt =====
-- remap.c: the block map, a sorted array of block ranges that a jump of the player is redirected
-- by. `int` is ℤ, `unsigned long` has 64 bits, and a block is passed by its position in the array.
use libdvdnav.Prelude.{
  ℕ, zero, suc, ◌+◌, ◌-◌, ◌*◌, ◌/◌, ◌≤◌, ◌≡◌, Bool, true, false, if◌then◌else◌, ltb, leb, ◌||◌,
  ◌==◌, Option, none, some, List, [], ◌∷◌, ◌++◌, length, get_elem?, set, u64, sub64,
}
use libdvdnav.Prelude.Int.{ℤ, pos, negsuc, int_ltb}
pub mod Order
pub mod Search
pub mod Insert
pub mod Sorted
pub mod Nodes
pub mod Merge
pub mod Lookup
pub mod Tests

pub record Block : Type 0 where
  domain : ℤ
  title : ℤ
  program : ℤ
  start_block : ℕ
  end_block : ℕ

-- `blocks` is the allocated array, `[]` for NULL; the first `nblocks` entries are in use.
pub record Map : Type 0 where
  maxblocks : ℕ
  nblocks : ℕ
  debug : Bool
  blocks : List Block

unfoldable pub remap_new : Map
remap_new = record { maxblocks = 0; nblocks = 0; debug = false; blocks = [] }

-- The answers -1, 0 and 1 of `compare_block`.
pub data Position : Type 0 where
  precedes : Position
  overlaps : Position
  follows : Position

-- Two values of a field that decide, or leave it to `rest`.
abbrev pub by_field : ℤ → ℤ → Position → Position
by_field a b rest = if int_ltb a b then precedes else if int_ltb b a then follows else rest

abbrev pub by_range : Block → Block → Position
by_range a b =
    if ltb a.end_block b.start_block
    then precedes
    else if ltb b.end_block a.start_block
    then follows
    else overlaps

unfoldable pub compare_block : Block → Block → Position
compare_block a b =
    by_field a.domain b.domain
      (by_field a.title b.title (by_field a.program b.program (by_range a b)))

module _ (blocks : List Block) (key : Block) where
  -- The loop of `findblock` with `ub + 1` for `ub`, which may be -1, and at most `left` rounds.
  -- `none` is an access outside the array; `some none` is NULL.
  unfoldable pub search_block : (left lb above : ℕ) → Option (Option ℕ)
  search_block zero lb above = none
  search_block (suc left) lb above =
      if ltb lb above
      then (elim (get_elem? blocks (lb + (above - 1 - lb) / 2)) [
        | none ↦ none
        | some b ↦ elim (compare_block key b) [
          | precedes ↦ search_block left lb (lb + (above - 1 - lb) / 2)
          | follows ↦ search_block left (lb + (above - 1 - lb) / 2 + 1) above
          | overlaps ↦ some (some (lb + (above - 1 - lb) / 2))
        ]
      ])
      else some none

unfoldable pub findblock : Map → Block → Option (Option ℕ)
findblock map key = search_block map.blocks key (map.nblocks + 1) 0 map.nblocks

unfoldable pub mergeblock : Block → Block → Block
mergeblock b tmp =
    let lower =
      if ltb tmp.start_block b.start_block
      then (record b { start_block = tmp.start_block })
      else b in
    if ltb lower.end_block tmp.end_block
    then (record lower { end_block = tmp.end_block })
    else lower

-- A write to the array, `none` outside it.
unfoldable pub store : List Block → ℕ → Block → Option (List Block)
store blocks i b = if ltb i (length blocks) then some (set blocks i b) else none

-- The loop that makes room from position `n` down, and the write of the new block.
unfoldable pub insert_block : List Block → Block → ℕ → Option (List Block)
insert_block blocks block zero = store blocks zero block
insert_block blocks block (suc n) = elim (get_elem? blocks n) [
  | none ↦ none
  | some b ↦ elim (compare_block block b) [
    | precedes ↦ elim (store blocks (suc n) b) [
      | none ↦ none
      | some shifted ↦ insert_block shifted block n
    ]
    | _ ↦ store blocks (suc n) block
  ]
]

-- Room for one more block. `fresh` is what `realloc` does when it is called: `none` if it fails,
-- else the 20 further entries, with any content. `some none` is the early return, which has NULL
-- for the array.
unfoldable pub reserve : Option (List Block) → Map → Map × Bool
reserve fresh map =
    if leb map.maxblocks map.nblocks
    then (elim fresh [
      | none ↦ (record map { blocks = [] }, false)
      | some more ↦
          (record map { blocks = map.blocks ++ more; maxblocks = map.maxblocks + 20 }, true)
    ])
    else (map, true)

unfoldable pub add_new : Map × Bool → Block → Option Map
add_new (map, false) block = some map
add_new (map, true) block = elim (insert_block map.blocks block map.nblocks) [
  | none ↦ none
  | some blocks ↦ some (record map { nblocks = map.nblocks + 1; blocks = blocks })
]

-- The whole of `remap_add_node`, `none` for an access outside the array.
unfoldable pub remap_add_node : Option (List Block) → Map → Block → Option Map
remap_add_node fresh map block = elim (findblock map block) [
  | none ↦ none
  | some none ↦ add_new (reserve fresh map) block
  | some (some i) ↦ elim (get_elem? map.blocks i) [
    | none ↦ none
    | some b ↦ some (record map { blocks = set map.blocks i (mergeblock b block) })
  ]
]

-- The single block that `remap_block` looks for.
unfoldable pub point : ℤ → ℤ → ℤ → ℕ → Block
point domain title program at = record {
  domain = domain;
  title = title;
  program = program;
  start_block = at;
  end_block = at;
}

unfoldable pub remap_block : Map → ℤ → ℤ → ℤ → (cblock offset : ℕ) → Option ℕ
remap_block map domain title program cblock offset =
    elim (findblock map (point domain title program (u64 (cblock + offset)))) [
      | none ↦ none
      | some none ↦ some offset
      | some (some i) ↦ elim (get_elem? map.blocks i) [
        | none ↦ none
        | some b ↦ some (sub64 b.end_block cblock)
      ]
    ]
