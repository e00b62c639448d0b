-- ===== src/Searching/Target.antt =====
-- The search for a sector against the positions of searching.c.
use libdvdnav.Prelude.{
  Bool, ◌&&◌, Bool-cases, true, false, leb, leb→le, ◌==◌, ℕ, zero, suc, ◌+◌, ◌-◌, ◌^◌, ◌≤◌, ◌<◌,
  ◌≡◌, ◌⊎◌, inl, inr, refl, ◌∙◌, ap, arith, none, some, List, length, All, u32, sub32,
}
use libdvdnav.Prelude.Program.{value, pure}
use libdvdnav.Vm.Disc.{Cell}
use libdvdnav.Vm.State.{Vm}
use libdvdnav.Vm.Sets.{entry}
use libdvdnav.Player.Time.{other_angle}
use libdvdnav.Searching.Seek.{sectors_of, position_from, sector_at, sector_from}
use libdvdnav.Searching.Steps.{
  IsOrdered, Keeps, cell_at, cell-IsOrdered, position_skip, position_step, sector_skip, sector_over,
  sector_hit, sector_stays, other_test, keeps_lem,
}

module _ (cells : List Cell) (vm : Vm) (forward : Bool) where
  -- The cell and the sector of the target have the target as their position.
  pub record IsTarget (last cur i count target at len : ℕ) : Type 0 where
    pub cell : ℕ
    pub sector : ℕ
    pub total : ℕ
    pub later : i ≤ cell
    pub info : Cell
    pub listed : entry cells cell ≡ some info
    pub reached :
        sector_from forward last cur i count cells target vm
        ≡ sector_at forward cell last cur sector info cells vm
    pub found :
        ((forward && cell == vm.state.cell_n) ≡ true)
        ⊎ (sector_from forward last cur i count cells target vm ≡ value (some (cell, sector)) vm)
    pub position :
        position_from sector cell i count cells at len vm ≡ value (len + target, total) vm

  -- The target lies past the range: the search finds none, and the range is not longer than the target.
  pub record IsPast (last cur i count target at len : ℕ) : Type 0 where
    pub total : ℕ
    pub missed : sector_from forward last cur i count cells target vm ≡ value none vm
    pub range : position_from 0 0 i count cells at len vm ≡ value (at, total) vm
    pub past : total ≤ len + target

  onto : {A : Type 0} {P : Type 0} {a b c : A} → a ≡ b → P ⊎ (b ≡ c) → P ⊎ (a ≡ c)
  onto e (inl p) = inl p
  onto e (inr f) = inr (e ∙ f)

  sectors_bound : (c : Cell) → IsOrdered c → sectors_of c ≡ suc (c.last_sector - c.first_sector)
  sectors_bound c (ordered, small) = omega (arith, ordered, small)

  module _ (last cur i n target at len : ℕ) (c : Cell) (e : entry cells i ≡ some c) where
    skip_lem :
        other_angle c ≡ true
        → IsTarget last cur (suc i) n target at len
        → IsTarget last cur i (suc n) target at len
    skip_lem angle t = record {
      cell = t.cell;
      sector = t.sector;
      total = t.total;
      later = omega (arith, t.later);
      info = t.info;
      listed = t.listed;
      reached = sector_skip cells vm forward i n c last cur target e angle ∙ t.reached;
      found = onto (sector_skip cells vm forward i n c last cur target e angle) t.found;
      position = position_skip cells vm forward i n c t.sector t.cell at len e angle ∙ t.position;
    }

    over_sum :
        leb (sectors_of c) target ≡ true
        → len + target < 2 ^ 32
        → u32 (len + sectors_of c) + (target - sectors_of c) ≡ len + target
    over_sum over small =
        let below : sectors_of c ≤ target = leb→le (sectors_of c) target over in
        omega (arith, below, small)

    earlier_test : (i j : ℕ) → suc i ≤ j → (i == j) ≡ false
    earlier_test i j h = ground arith

    skip-IsPast :
        other_angle c ≡ true
        → IsPast last cur (suc i) n target at len
        → IsPast last cur i (suc n) target at len
    skip-IsPast angle t = record {
      total = t.total;
      missed = sector_skip cells vm forward i n c last cur target e angle ∙ t.missed;
      range = position_skip cells vm forward i n c 0 0 at len e angle ∙ t.range;
      past = t.past;
    }

    over-IsPast :
        0 < i
        → other_angle c ≡ false
        → leb (sectors_of c) target ≡ true
        → len + target < 2 ^ 32
        → IsPast last cur (suc i) n (target - sectors_of c) at (u32 (len + sectors_of c))
        → IsPast last cur i (suc n) target at len
    over-IsPast above plain over small t = record {
      total = t.total;
      missed = sector_over cells vm forward i n c last cur target e plain over ∙ t.missed;
      range =
          position_step cells vm forward i n c 0 0 at len e plain
          ∙ rw (other_test cells vm forward i 0 above) t.range;
      past = past_sum t.total (over_sum over small) t.past;
    }
      where
        past_sum : (total : ℕ) {a b : ℕ} → a ≡ b → total ≤ a → total ≤ b
        past_sum total h k = omega (arith, h, k)

    over_lem :
        other_angle c ≡ false
        → leb (sectors_of c) target ≡ true
        → len + target < 2 ^ 32
        → IsTarget last cur (suc i) n (target - sectors_of c) at (u32 (len + sectors_of c))
        → IsTarget last cur i (suc n) target at len
    over_lem plain over small t = record {
      cell = t.cell;
      sector = t.sector;
      total = t.total;
      later = omega (arith, t.later);
      info = t.info;
      listed = t.listed;
      reached = sector_over cells vm forward i n c last cur target e plain over ∙ t.reached;
      found = onto (sector_over cells vm forward i n c last cur target e plain over) t.found;
      position =
          position_step cells vm forward i n c t.sector t.cell at len e plain
          ∙ rw (earlier_test i t.cell t.later)
              (t.position ∙ ap (λ p. value (p, t.total) vm) (over_sum over small));
    }

    hit_position :
        IsOrdered c
        → leb (sectors_of c) target ≡ false
        → len + target < 2 ^ 32
        → sub32 (u32 (len + u32 (target + c.first_sector))) c.first_sector ≡ len + target
    hit_position ordered hit small =
        let below : target < sectors_of c = ground (arith, hit) in
        omega (arith, below, small, ordered, sectors_bound c ordered)

    hit_lem :
        IsOrdered c
        → 0 < i
        → i + suc n ≤ suc (length cells)
        → other_angle c ≡ false
        → leb (sectors_of c) target ≡ false
        → len + target < 2 ^ 32
        → IsTarget last cur i (suc n) target at len
    unfolding Keeps
    hit_lem ordered above below plain hit small =
        let sector : ℕ = u32 (target + c.first_sector) in
        let (total, rest) =
          keeps_lem cells vm forward sector i (suc i) n (len + target) (u32 (len + sectors_of c))
            (omega arith) (omega (arith, below)) in
        record {
          cell = i;
          sector = sector;
          total = total;
          later = omega arith;
          info = c;
          listed = e;
          reached = sector_hit cells vm forward i n c last cur target e plain hit;
          found = elim (Bool-cases (forward && i == vm.state.cell_n)) [
            | inl current ↦ inl current
            | inr apart ↦ inr (
                sector_hit cells vm forward i n c last cur target e plain hit
                ∙ sector_stays cells vm forward i last cur sector c apart)
          ];
          position =
              position_step cells vm forward i n c sector i at len e plain
              ∙ rw (same_test i, hit_position ordered hit small) rest;
        }
      where
        same_test : (i : ℕ) → (i == i) ≡ true
        same_test i = ground arith

  -- A search for a sector, in a range of the cells of a program chain whose sectors are in order, finds
  -- a cell and a sector whose position in the range is the target; only a search forward that ends in
  -- the current cell goes on from this sector, to look for a unit past the current one. Or the search
  -- finds none, and then the range is not longer than the target.
  pub sector_from-position_from :
      (last cur i count target at len : ℕ)
      → All IsOrdered cells
      → 0 < i
      → i + count ≤ suc (length cells)
      → len + target < 2 ^ 32
      → IsPast last cur i count target at len ⊎ IsTarget last cur i count target at len
  unfolding sector_from position_from pure
  sector_from-position_from last cur i zero target at len all above below small =
      inl (record { total = len; missed = refl; range = refl; past = omega arith })
  sector_from-position_from last cur i (suc n) target at len all above below small =
      let (c, e) = cell_at cells vm forward i n above below in
      elim (Bool-cases (other_angle c)) [
        | inl angle ↦
            elim (sector_from-position_from last cur (suc i) n target at len all (omega arith)
              (omega (arith, below)) small) [
                | inl missed ↦ inl (skip-IsPast last cur i n target at len c e angle missed)
                | inr t ↦ inr (skip_lem last cur i n target at len c e angle t)
              ]
        | inr plain ↦ elim (Bool-cases (leb (sectors_of c) target)) [
          | inl over ↦
              elim (sector_from-position_from last cur (suc i) n (target - sectors_of c) at
                (u32 (len + sectors_of c)) all (omega arith) (omega (arith, below))
                (rest_small (over_sum last cur i n target at len c e over small) small)) [
                  | inl missed ↦
                      inl (over-IsPast last cur i n target at len c e above plain over small missed)
                  | inr t ↦ inr (over_lem last cur i n target at len c e plain over small t)
                ]
          | inr hit ↦ inr (
              hit_lem last cur i n target at len c e (cell-IsOrdered cells vm forward i c all e)
                above below plain hit small)
        ]
      ]
    where
      rest_small : {a b : ℕ} → a ≡ b → b < 2 ^ 32 → a < 2 ^ 32
      rest_small h k = omega (arith, h, k)
