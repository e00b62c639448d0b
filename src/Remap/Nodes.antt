-- ===== src/Remap/Nodes.antt =====
-- remap_add_node of remap.c on a well-formed map: a new block, and a block that is merged.
use libdvdnav.Prelude.{
  ℕ, suc, ◌+◌, ◌≤◌, ◌<◌, ◌≡◌, ◌≢◌, refl, sym, ◌∙◌, ap, arith, inl, inr, ◌⊎◌, ◌↔◌, Bool-cases,
  Option, none, some, List, get_elem?, length, leb, ◌++◌, length-append, get_elem?-append, true,
}
use libdvdnav.Remap.{Block, Map, overlaps, compare_block, reserve, add_new, remap_add_node}
use libdvdnav.Remap.Order.{IsBlock}
use libdvdnav.Remap.Search.{IsSorted, Answers, findblock_lem}
use libdvdnav.Remap.Insert.{Room, Inserted, insert_block_lem}
use libdvdnav.Remap.Sorted.{inserted-IsSorted, origin, lower, itself, raised}

-- The map is sorted and its array has `maxblocks` entries.
pub record IsMap (map : Map) : Type 0 where
  pub sorted : IsSorted map.blocks map.nblocks
  pub size : length map.blocks ≡ map.maxblocks

-- The block is one of those in use.
unfoldable pub Holds : Map → Block → Type 0
Holds map b = (i : ℕ) × (i < map.nblocks) × (get_elem? map.blocks i ≡ some b)

-- No block of the map overlaps it.
unfoldable pub IsApart : Map → Block → Type 0
IsApart map block = (b : Block) → Holds map b → compare_block block b ≢ overlaps

below-cases : (i k : ℕ) → (i < k) ⊎ (k ≤ i)
below-cases i k = ground arith

IsSorted-agrees :
    (old new : List Block) (n : ℕ)
    → IsSorted old n
    → n ≤ length new
    → ((i : ℕ) → i < n → get_elem? new i ≡ get_elem? old i)
    → IsSorted new n
IsSorted-agrees old new n sorted fits same = record {
  allocated = fits;
  valid = λ i b lt e. sorted.valid i b lt (sym (same i lt) ∙ e);
  ordered = λ i j a b lt m e f.
      sorted.ordered i j a b lt m (sym (same i (omega arith)) ∙ e) (sym (same j m) ∙ f);
}

-- There is room for one more, and the entries in use are kept.
unfoldable pub Reserved : Map → Map → Type 0
Reserved map map' =
    IsMap map'
    × (map'.nblocks ≡ map.nblocks)
    × (map.nblocks < length map'.blocks)
    × ((i : ℕ) → i < map.nblocks → get_elem? map'.blocks i ≡ get_elem? map.blocks i)

reserve_lem :
    (map : Map) (more : List Block)
    → IsMap map
    → length more ≡ 20
    → (map' : Map) × (reserve (some more) map ≡ (map', true)) × Reserved map map'
unfolding reserve Reserved
reserve_lem map more ok new = elim (Bool-cases (leb map.maxblocks map.nblocks)) [
  | inr room ↦ (map, rw room refl, (ok, refl, ground (arith, ok.size), λ i lt. refl))
  | inl full ↦ (
    record map { blocks = map.blocks ++ more; maxblocks = map.maxblocks + 20 },
    rw full refl,
    (
      record {
        sorted =
            IsSorted-agrees map.blocks (map.blocks ++ more) map.nblocks ok.sorted
              (omega (arith, length-append map.blocks more, ok.sorted.allocated)) kept;
        size = length-append map.blocks more ∙ omega (arith, ok.size);
      },
      refl,
      omega (arith, length-append map.blocks more, ok.sorted.allocated),
      kept,
    ),
  )
]
  where
    kept : (i : ℕ) → i < map.nblocks → get_elem? (map.blocks ++ more) i ≡ get_elem? map.blocks i
    kept i lt = get_elem?-append map.blocks more i (omega (arith, ok.sorted.allocated))

-- The map after an insertion, and the blocks that it has.
unfoldable pub Added : Map → Block → Map → Type 0
Added map block map' = IsMap map' × ((b : Block) → Holds map' b ↔ (Holds map b ⊎ (b ≡ block)))

module _ (map : Map) (block : Block) (k : ℕ) (new : List Block)
    (ins : Inserted map.blocks map.nblocks block k new) (b : Block) where
  from_new : (i : ℕ) → i < map.nblocks + 1 → get_elem? new i ≡ some b → Holds map b ⊎ (b ≡ block)
  unfolding Holds
  from_new i lt e = elim (origin map.blocks map.nblocks block k new ins i b (omega arith) e) [
    | lower low f ↦ inl (i, omega (arith, ins.room.inside), f)
    | itself same is ↦ inr is
    | raised q up ge less f ↦ inl (q, less, f)
  ]

  to_new : Holds map b ⊎ (b ≡ block) → (i : ℕ) × (i < map.nblocks + 1) × (get_elem? new i ≡ some b)
  unfolding Holds
  to_new (inr is) = (k, omega (arith, ins.room.inside), rw is ins.here)
  to_new (inl (i, lt, e)) = elim (below-cases i k) [
    | inl low ↦ (i, omega arith, ins.room.lower i low ∙ e)
    | inr high ↦ (suc i, omega arith, ins.room.raised i high lt ∙ e)
  ]

add_new_lem :
    (map : Map) (block : Block)
    → IsMap map
    → IsBlock block
    → IsApart map block
    → map.nblocks < length map.blocks
    → (map' : Map) × (add_new (map, true) block ≡ some map') × Added map block map'
unfolding add_new IsApart Holds Added
add_new_lem map block ok valid apart fits =
    let n = map.nblocks in
    let (k, new, out, ins) = insert_block_lem map.blocks n block fits n map.blocks start in
    (
      record map { nblocks = n + 1; blocks = new },
      rw (add_new, out) refl,
      (
        record {
          sorted =
              inserted-IsSorted map.blocks n block k new ins ok.sorted valid
                (λ i b lt e. apart b (i, lt, e)) fits;
          size = ins.room.size ∙ ok.size;
        },
        λ b. (λ h. from_new map block k new ins b h.0 h.1 h.2, to_new map block k new ins b),
      ),
    )
  where
    start : Room map.blocks map.nblocks block map.nblocks map.blocks
    start = record {
      inside = omega arith;
      size = refl;
      lower = λ i lt. refl;
      raised = λ i le lt. absurd (omega arith);
      above = λ i b le lt. absurd (omega arith);
    }

-- The blocks of a map with room made are those of the map.
grown_blocks : (map room : Map) → Reserved map room → (b : Block) → Holds room b ↔ Holds map b
unfolding Holds Reserved
grown_blocks map room (fine, same, fits, kept) b = (
  λ h. (h.0, omega (arith, h.1), sym (kept h.0 (omega (arith, h.1))) ∙ h.2),
  λ h. (h.0, omega (arith, h.1), kept h.0 h.1 ∙ h.2),
)

grown_map : (map room : Map) → Reserved map room → IsMap room × (room.nblocks < length room.blocks)
unfolding Reserved
grown_map map room (fine, same, fits, kept) = (fine, rw same fits)

grown_gap :
    (map room : Map) (block : Block) → Reserved map room → IsApart map block → IsApart room block
unfolding IsApart
grown_gap map room block fine apart b h = apart b ((grown_blocks map room fine b).0 h)

left_by : {P Q R : Type 0} → (P → Q) → P ⊎ R → Q ⊎ R
left_by f (inl p) = inl (f p)
left_by f (inr r) = inr r

new_answer :
    (map : Map) (block : Block) (r : Option ℕ)
    → IsApart map block
    → Answers map.blocks map.nblocks block r
    → r ≡ none
unfolding IsApart Holds Answers
new_answer map block none apart answer = refl
new_answer map block (some i) apart (lt, b, e, over) = absurd (apart b (i, lt, e) over)

-- Adding a block that overlaps none to a well-formed map succeeds, keeps the map well-formed, and the
-- map then has its old blocks and the new one; `realloc` is taken to succeed.
pub remap_add_node_new :
    (map : Map) (block : Block) (more : List Block)
    → IsMap map
    → IsBlock block
    → IsApart map block
    → length more ≡ 20
    → (map' : Map) × (remap_add_node (some more) map block ≡ some map') × Added map block map'
unfolding remap_add_node Added
remap_add_node_new map block more ok valid apart new =
    let (r, out, answer) = findblock_lem map block ok.sorted valid in
    let nothing = out ∙ ap some (new_answer map block r apart answer) in
    let (room, reserved, fine) = reserve_lem map more ok new in
    let holds = grown_blocks map room fine in
    let (map', added, (good, blocks)) =
      add_new_lem room block (grown_map map room fine).0 valid (grown_gap map room block fine apart)
        (grown_map map room fine).1 in
    (
      map',
      rw (remap_add_node, nothing, reserved) added,
      (
        good,
        λ b. (λ h. left_by (holds b).0 ((blocks b).0 h), λ h. (blocks b).1 (left_by (holds b).1 h)),
      ),
    )
