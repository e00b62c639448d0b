-- ===== src/Searching/Steps.antt =====
-- The steps of the loops of searching.c over a range of cells.
use libdvdnav.Prelude.{
  Bool, ◌&&◌, Bool-cases, true, false, if◌then◌else◌, leb, ◌==◌, ℕ, zero, suc, ◌+◌, ◌-◌, ◌^◌, ◌≤◌,
  ◌<◌, ◌≡◌, inl, inr, refl, ◌∙◌, arith, some, List, length, All, All-get, get_elem?_of_lt, u32,
  sub32,
}
use libdvdnav.Prelude.Program.{value, pure, when◌then◌else◌, ◌>>=◌}
use libdvdnav.Vm.Disc.{Cell}
use libdvdnav.Vm.State.{Vm, get_state}
use libdvdnav.Vm.Sets.{entry}
use libdvdnav.Player.Time.{other_angle}
use libdvdnav.Searching.Seek.{sectors_of, position_from, sector_at, sector_from}

-- The sectors of a cell are in order and fewer than 2 ^ 32.
abbrev pub IsOrdered : Cell → Type 0
IsOrdered c = (c.first_sector ≤ c.last_sector) × (c.last_sector < 2 ^ 32 - 1)

module _ (cells : List Cell) (vm : Vm) (forward : Bool) where
  pub cell_at :
      (i count : ℕ)
      → 0 < i
      → i + suc count ≤ suc (length cells)
      → (c : Cell) × (entry cells i ≡ some c)
  unfolding entry
  cell_at zero count above below = absurd (omega (arith, above))
  cell_at (suc i) count above below = get_elem?_of_lt cells i (omega (arith, below))

  pub cell-IsOrdered :
      (i : ℕ) (c : Cell) → All IsOrdered cells → entry cells i ≡ some c → IsOrdered c
  unfolding entry
  cell-IsOrdered zero c all e = cc
  cell-IsOrdered (suc i) c all e = All-get IsOrdered cells i c all e

  module _ (i n : ℕ) (c : Cell) where
    pub position_skip :
        (s j at len : ℕ)
        → entry cells i ≡ some c
        → other_angle c ≡ true
        → position_from s j i (suc n) cells at len vm ≡ position_from s j (suc i) n cells at len vm
    unfolding position_from ◌>>=◌
    position_skip s j at len e angle = simp (e, angle) refl

    pub position_step :
        (s j at len : ℕ)
        → entry cells i ≡ some c
        → other_angle c ≡ false
        → position_from s j i (suc n) cells at len vm
          ≡ position_from s j
              (suc i)
              n
              cells
              (if i == j then sub32 (u32 (len + s)) c.first_sector else at)
              (u32 (len + sectors_of c))
              vm
    unfolding position_from ◌>>=◌
    position_step s j at len e plain = simp (e, plain) refl

    pub sector_skip :
        (last cur target : ℕ)
        → entry cells i ≡ some c
        → other_angle c ≡ true
        → sector_from forward last cur i (suc n) cells target vm
          ≡ sector_from forward last cur (suc i) n cells target vm
    unfolding sector_from ◌>>=◌
    sector_skip last cur target e angle = simp (e, angle) refl

    pub sector_over :
        (last cur target : ℕ)
        → entry cells i ≡ some c
        → other_angle c ≡ false
        → leb (sectors_of c) target ≡ true
        → sector_from forward last cur i (suc n) cells target vm
          ≡ sector_from forward last cur (suc i) n cells (target - sectors_of c) vm
    unfolding sector_from ◌>>=◌
    sector_over last cur target e plain over = simp (e, plain, over) refl

    pub sector_hit :
        (last cur target : ℕ)
        → entry cells i ≡ some c
        → other_angle c ≡ false
        → leb (sectors_of c) target ≡ false
        → sector_from forward last cur i (suc n) cells target vm
          ≡ sector_at forward i last cur (u32 (target + c.first_sector)) c cells vm
    unfolding sector_from ◌>>=◌
    sector_hit last cur target e plain hit = simp (e, plain, hit) refl

  -- A search that is not forward, or not in the current cell, stops at the sector.
  pub sector_stays :
      (i last cur sector : ℕ) (c : Cell)
      → (forward && i == vm.state.cell_n) ≡ false
      → sector_at forward i last cur sector c cells vm ≡ value (some (i, sector)) vm
  unfolding sector_at get_state ◌>>=◌
  sector_stays i last cur sector c apart = simp (apart) refl

  -- The loop goes on to its end and keeps the position.
  unfoldable pub Keeps : (s j i count at len : ℕ) → Type 0
  Keeps s j i count at len =
      (total : ℕ) × (position_from s j i count cells at len vm ≡ value (at, total) vm)

  pub other_test : (i j : ℕ) → j < i → (i == j) ≡ false
  other_test i j h = ground arith

  pub keeps_lem :
      (s j i count at len : ℕ) → j < i → i + count ≤ suc (length cells) → Keeps s j i count at len
  unfolding position_from Keeps pure
  keeps_lem s j i zero at len later below = (len, refl)
  keeps_lem s j i (suc count) at len later below =
      let (c, e) = cell_at i count (omega (arith, later)) below in
      elim (Bool-cases (other_angle c)) [
        | inl angle ↦
            let (total, rest) =
              keeps_lem s j (suc i) count at len (omega (arith, later)) (omega (arith, below)) in
            (total, position_skip i count c s j at len e angle ∙ rest)
        | inr plain ↦
            let (total, rest) =
              keeps_lem s j (suc i) count at (u32 (len + sectors_of c)) (omega (arith, later))
                (omega (arith, below)) in
            (total, position_step i count c s j at len e plain ∙ rw (other_test i j later) rest)
      ]
