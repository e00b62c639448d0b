-- ===== src/Vm/Blocks.antt =====
-- The end of a cell in vm/vm.c: which cell comes next.
use libdvdnav.Prelude.{
  Bool-cases, leb, ℕ, zero, suc, ◌+◌, ◌<◌, ◌≤◌, ◌≡◌, ◌≢◌, ne→==, eq→==, refl, sym, ◌∙◌, ap, arith,
  inl, inr, some, List, [], ◌∷◌, get_elem?,
}
use libdvdnav.Prelude.Program.{value, ◌>>=◌}
use libdvdnav.Vm.Disc.{Cell, Pgc}
use libdvdnav.Vm.State.{Vm, get_state, put_state}
use libdvdnav.Vm.Play.{count_block, drop_cells, leave_block, set_cell_n}

get_elem?-drop_cells :
    (n : ℕ) (cells : List Cell) (i : ℕ) → get_elem? (drop_cells n cells) i ≡ get_elem? cells (n + i)
unfolding drop_cells
get_elem?-drop_cells zero cells i = let same : i ≡ 0 + i = omega arith in ap (get_elem? cells) same
get_elem?-drop_cells (suc n) [] i = refl
get_elem?-drop_cells (suc n) (c ∷ cells) i =
    let same : suc (n + i) ≡ suc n + i = omega arith in
    get_elem?-drop_cells n cells i ∙ ap (get_elem? (c ∷ cells)) same

-- The first `k` cells exist and belong to the block, and the one after them, if any, does not.
pub record BlockOf (cells : List Cell) (k : ℕ) : Type 0 where
  pub inside : (i : ℕ) → i < k → (c : Cell) × (get_elem? cells i ≡ some c) × (2 ≤ c.block_mode)
  pub next : (c : Cell) → get_elem? cells k ≡ some c → c.block_mode < 2

one_member :
    (c : Cell) (cells : List Cell) (k : ℕ)
    → 2 ≤ c.block_mode
    → BlockOf cells k
    → BlockOf (c ∷ cells) (suc k)
one_member c cells k member rest = record { inside = members; next = rest.next }
  where
    members :
        (i : ℕ) → i < suc k → (d : Cell) × (get_elem? (c ∷ cells) i ≡ some d) × (2 ≤ d.block_mode)
    members zero lt = (c, refl, member)
    members (suc i) lt = rest.inside i (omega arith)

count_block_lem : (cells : List Cell) → BlockOf cells (count_block cells)
unfolding count_block
count_block_lem [] = record { inside = λ i lt. absurd (omega arith); next = λ c e. absurd (cc) }
count_block_lem (c ∷ cells) = elim (Bool-cases (leb 2 c.block_mode)) [
  | inl member ↦ rw member (one_member c cells _ (ground arith) (count_block_lem cells))
  | inr other ↦
      rw other (record { inside = λ i lt. absurd (omega arith); next = λ d e. ground arith })
]

-- After the first or a later cell of an angle block, the next cell is the first one behind it that
-- is not inside a block, or the number one past the last cell: exactly the other angles, which are
-- cells of the program chain, are passed over.
pub leave_block_lem :
    (vm : Vm) (cell : Cell) (pgc : Pgc)
    → cell.block_mode ≢ 0
    → cell.block_type ≡ 1
    → (k : ℕ) × (leave_block cell pgc vm
        ≡ value tt (record vm { state = record (vm.state) { cell_n = vm.state.cell_n + 1 + k } }))
      × ((i : ℕ)
          → i < k
          → (c : Cell) × (get_elem? pgc.cell_playback (vm.state.cell_n + i) ≡ some c)
            × (2 ≤ c.block_mode))
      × ((c : Cell) → get_elem? pgc.cell_playback (vm.state.cell_n + k) ≡ some c → c.block_mode < 2)
unfolding leave_block set_cell_n get_state put_state ◌>>=◌
leave_block_lem vm cell pgc block angle =
    let rest = drop_cells vm.state.cell_n pgc.cell_playback in
    let found = count_block_lem rest in
    (
      count_block rest,
      rw (ne→== cell.block_mode 0 block, eq→== cell.block_type 1 angle) refl,
      λ i lt.
          let (c, e, member) = found.inside i lt in
          (c, sym (get_elem?-drop_cells vm.state.cell_n pgc.cell_playback i) ∙ e, member),
      λ c e.
          found.next c
            (get_elem?-drop_cells vm.state.cell_n pgc.cell_playback (count_block rest) ∙ e),
    )
