-- ===== src/Remap/Search.antt =====
-- The binary search of findblock in remap.c over a sorted block map.
use libdvdnav.Prelude.{
  ℕ, zero, suc, ◌+◌, ◌-◌, ◌/◌, ◌≤◌, ◌<◌, ◌≡◌, ◌≢◌, refl, ltb, arith, false, ◌⊎◌, inl, inr,
  Bool-cases, Option, none, some, List, get_elem?, length, get_elem?_of_lt, sym, ◌∙◌, ap,
}
use libdvdnav.Remap.{
  Block, Map, Position, precedes, overlaps, follows, compare_block, search_block, findblock,
}
use libdvdnav.Remap.Order.{IsBlock, opposite, compare_block-opposite, compare_block_trans}

-- The entries below `n` are in the array, are blocks, and stand in the order of the ranges.
pub record IsSorted (blocks : List Block) (n : ℕ) : Type 0 where
  pub allocated : n ≤ length blocks
  pub valid : (i : ℕ) (b : Block) → i < n → get_elem? blocks i ≡ some b → IsBlock b
  pub ordered :
      (i j : ℕ) (a b : Block)
      → i < j
      → j < n
      → get_elem? blocks i ≡ some a
      → get_elem? blocks j ≡ some b
      → compare_block a b ≡ precedes

-- An answer of the search: a position below `n` whose block overlaps the key, or that no block
-- below `n` does.
unfoldable pub Answers : List Block → ℕ → Block → Option ℕ → Type 0
Answers blocks n key none =
    (i : ℕ) (b : Block) → i < n → get_elem? blocks i ≡ some b → compare_block key b ≢ overlaps
Answers blocks n key (some i) =
    (i < n) × (b : Block) × (get_elem? blocks i ≡ some b) × (compare_block key b ≡ overlaps)

pub not_both : precedes ≢ overlaps
not_both e = cc

follows_not : follows ≢ overlaps
follows_not e = cc

lt-cases : (i j : ℕ) → (i < j) ⊎ (j ≤ i)
lt-cases i j = ground arith

pub Position-cases : (p : Position) → (p ≡ precedes) ⊎ ((p ≡ overlaps) ⊎ (p ≡ follows))
Position-cases precedes = inl refl
Position-cases overlaps = inr (inl refl)
Position-cases follows = inr (inr refl)

pub le-cases : (i j : ℕ) → i ≤ j → (i ≡ j) ⊎ (i < j)
le-cases i j h = ground arith

module _ (blocks : List Block) (n : ℕ) (key : Block) (sorted : IsSorted blocks n)
    (ok : IsBlock key) where
  -- What the rounds so far have shown: the key follows all below `lb` and precedes all from `above` on.
  record Bracket (lb above : ℕ) : Type 0 where
    below :
        (i : ℕ) (b : Block) → i < lb → get_elem? blocks i ≡ some b → compare_block key b ≡ follows
    beyond :
        (i : ℕ) (b : Block)
        → above ≤ i
        → i < n
        → get_elem? blocks i ≡ some b
        → compare_block key b ≡ precedes
    forward : lb ≤ above
    inside : above ≤ n

  some-same :
      (i j : ℕ) (a b : Block)
      → i ≡ j
      → get_elem? blocks i ≡ some a
      → get_elem? blocks j ≡ some b
      → a ≡ b
  some-same i j a b same e f = cc

  follows_below :
      (i j : ℕ) (a b : Block)
      → i ≤ j
      → j < n
      → get_elem? blocks i ≡ some a
      → get_elem? blocks j ≡ some b
      → compare_block key b ≡ follows
      → compare_block key a ≡ follows
  unfolding opposite
  follows_below i j a b le lt e f h = elim (le-cases i j le) [
    | inl same ↦ ap (compare_block key) (some-same i j a b same e f) ∙ h
    | inr less ↦
        let key_after = compare_block-opposite b key (sorted.valid j b lt f) ok in
        let a_before = sorted.ordered i j a b less lt e f in
        let a_first =
          compare_block_trans a b key (sorted.valid j b lt f) a_before
            (key_after ∙ ap opposite h) in
        compare_block-opposite key a ok (sorted.valid i a (omega arith) e) ∙ ap opposite a_first
  ]

  precedes_beyond :
      (i j : ℕ) (a b : Block)
      → i ≤ j
      → j < n
      → get_elem? blocks i ≡ some a
      → get_elem? blocks j ≡ some b
      → compare_block key a ≡ precedes
      → compare_block key b ≡ precedes
  precedes_beyond i j a b le lt e f h = elim (le-cases i j le) [
    | inl same ↦ ap (compare_block key) (sym (some-same i j a b same e f)) ∙ h
    | inr less ↦
        compare_block_trans key a b (sorted.valid i a (omega arith) e) h
          (sorted.ordered i j a b less lt e f)
  ]

  lower :
      (lb mid above : ℕ) (b : Block)
      → Bracket lb above
      → lb ≤ mid
      → mid < above
      → get_elem? blocks mid ≡ some b
      → compare_block key b ≡ precedes
      → Bracket lb mid
  lower lb mid above b inv ge lt e h = record {
    below = inv.below;
    beyond = λ i c le less f. precedes_beyond mid i b c le less e f h;
    forward = ge;
    inside = omega (arith, inv.inside);
  }

  upper :
      (lb mid above : ℕ) (b : Block)
      → Bracket lb above
      → mid < above
      → get_elem? blocks mid ≡ some b
      → compare_block key b ≡ follows
      → Bracket (mid + 1) above
  upper lb mid above b inv lt e h = record {
    below = λ i c le f. follows_below i mid c b (omega arith) (omega (arith, inv.inside)) f e h;
    beyond = inv.beyond;
    forward = omega arith;
    inside = inv.inside;
  }

  abbrev Answer : ℕ → ℕ → ℕ → Type 0
  Answer left lb above =
      (r : Option ℕ) × (search_block blocks key left lb above ≡ some r) × Answers blocks n key r

  exhausted :
      (left lb above : ℕ) → Bracket lb above → ltb lb above ≡ false → Answer (suc left) lb above
  unfolding search_block Answers
  exhausted left lb above inv stop = (
    none,
    rw stop refl,
    λ i b lt e h. elim (lt-cases i lb) [
      | inl under ↦ follows_not (sym (inv.below i b under e) ∙ h)
      | inr over ↦ not_both (sym (inv.beyond i b (ground arith) lt e) ∙ h)
    ],
  )

  search_block_lem :
      (left lb above : ℕ) → above < lb + left → Bracket lb above → Answer left lb above
  unfolding search_block Answers
  search_block_lem zero lb above enough inv = absurd (omega (arith, inv.forward))
  search_block_lem (suc left) lb above enough inv = elim (Bool-cases (ltb lb above)) [
    | inr stop ↦ exhausted left lb above inv stop
    | inl more ↦
        let (b, e) =
          get_elem?_of_lt blocks (lb + (above - 1 - lb) / 2)
            (ground (arith, inv.inside, sorted.allocated)) in
        elim (Position-cases (compare_block key b)) [
          | inl before ↦
              let (r, out, answer) =
                search_block_lem left lb (lb + (above - 1 - lb) / 2) (ground arith)
                  (lower lb _ above b inv (omega arith) (ground arith) e before) in
              (r, rw (more, e, before) out, answer)
          | inr (inl here) ↦ (
            some (lb + (above - 1 - lb) / 2),
            rw (more, e, here) refl,
            (ground (arith, inv.inside), b, e, here),
          )
          | inr (inr after) ↦
              let (r, out, answer) =
                search_block_lem left (lb + (above - 1 - lb) / 2 + 1) above (ground arith)
                  (upper lb _ above b inv (ground arith) e after) in
              (r, rw (more, e, after) out, answer)
        ]
  ]

-- On a sorted map the binary search of findblock ends within its rounds, reads no entry outside the
-- array, and answers with a block that overlaps the key if and only if there is one.
pub findblock_lem :
    (map : Map) (key : Block)
    → IsSorted map.blocks map.nblocks
    → IsBlock key
    → (r : Option ℕ) × (findblock map key ≡ some r) × Answers map.blocks map.nblocks key r
unfolding findblock
findblock_lem map key sorted ok =
    search_block_lem map.blocks map.nblocks key sorted ok (map.nblocks + 1) 0 map.nblocks
      (omega arith)
      (record {
        below = λ i b lt. absurd (omega arith);
        beyond = λ i b le lt. absurd (omega arith);
        forward = omega arith;
        inside = omega arith;
      })
