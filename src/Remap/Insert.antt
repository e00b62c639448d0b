-- ===== src/Remap/Insert.antt =====
-- The insertion of remap_add_node in remap.c: the loop that makes room, and the map after it.
use libdvdnav.Prelude.{
  ℕ, zero, suc, ◌≤◌, ◌<◌, ◌≡◌, ◌≢◌, refl, sym, ◌∙◌, ap, lt→ltb, arith, inl, inr, some, List,
  get_elem?, length, set, length-set, get_elem?-set_self, get_elem?-set_ne, get_elem?_of_lt,
}
use libdvdnav.Remap.{Block, precedes, compare_block, store, insert_block}
use libdvdnav.Remap.Search.{Position-cases, le-cases}

module _ (old : List Block) (n : ℕ) (block : Block) where
  -- Room has been made down to position `k`: what stood from there on is one further up.
  pub record Room (k : ℕ) (now : List Block) : Type 0 where
    pub inside : k ≤ n
    pub size : length now ≡ length old
    pub lower : (i : ℕ) → i < k → get_elem? now i ≡ get_elem? old i
    pub raised : (i : ℕ) → k ≤ i → i < n → get_elem? now (suc i) ≡ get_elem? old i
    pub above :
        (i : ℕ) (b : Block)
        → k ≤ i
        → i < n
        → get_elem? old i ≡ some b
        → compare_block block b ≡ precedes

  -- The new block stands at position `k`, after all blocks that it does not precede.
  pub record Inserted (k : ℕ) (new : List Block) : Type 0 where
    pub room : Room k new
    pub here : get_elem? new k ≡ some block
    pub stop :
        (i : ℕ) (b : Block)
        → k ≡ suc i
        → get_elem? old i ≡ some b
        → compare_block block b ≢ precedes

  module _ (fits : n < length old) where
    moved_here :
        (k i : ℕ) (now : List Block) (b : Block)
        → Room (suc k) now
        → get_elem? old k ≡ some b
        → k ≡ i
        → get_elem? (set now (suc k) b) (suc i) ≡ get_elem? old i
    moved_here k i now b room e same =
        ap (λ (j : ℕ). get_elem? (set now (suc k) b) (suc j)) (sym same)
        ∙ get_elem?-set_self now (suc k) b (omega (arith, room.size, room.inside, fits))
        ∙ sym e
        ∙ ap (get_elem? old) same

    move_up :
        (k : ℕ) (now : List Block) (b : Block)
        → Room (suc k) now
        → get_elem? old k ≡ some b
        → compare_block block b ≡ precedes
        → Room k (set now (suc k) b)
    move_up k now b room e h = record {
      inside = omega (arith, room.inside);
      size = length-set now (suc k) b ∙ room.size;
      lower = λ i lt. get_elem?-set_ne now (suc k) i b (ground arith) ∙ room.lower i (omega arith);
      raised = λ i le lt. elim (le-cases k i le) [
        | inl same ↦ moved_here k i now b room e same
        | inr less ↦ get_elem?-set_ne now (suc k) (suc i) b (ground arith) ∙ room.raised i less lt
      ];
      above = λ i c le lt f. elim (le-cases k i le) [
        | inl same ↦ cc (h, f, e, same)
        | inr less ↦ room.above i c less lt f
      ];
    }

    place :
        (k : ℕ) (now : List Block)
        → Room k now
        → ((i : ℕ) (b : Block)
            → k ≡ suc i
            → get_elem? old i ≡ some b
            → compare_block block b ≢ precedes)
        → Inserted k (set now k block)
    place k now room stop = record {
      room = record {
        inside = room.inside;
        size = length-set now k block ∙ room.size;
        lower = λ i lt. get_elem?-set_ne now k i block (ground arith) ∙ room.lower i lt;
        raised =
            λ i le lt. get_elem?-set_ne now k (suc i) block (ground arith) ∙ room.raised i le lt;
        above = room.above;
      };
      here = get_elem?-set_self now k block (omega (arith, room.inside, room.size));
      stop = stop;
    }

    pub insert_block_lem :
        (k : ℕ) (now : List Block)
        → Room k now
        → (j : ℕ) × (new : List Block) × (insert_block now block k ≡ some new) × Inserted j new
    unfolding insert_block store
    insert_block_lem zero now room = (
      zero,
      set now zero block,
      rw (lt→ltb zero (length now) (omega (arith, room.size, fits))) refl,
      place zero now room (λ i b e. absurd (omega arith)),
    )
    insert_block_lem (suc k) now room =
        let (b, e) = get_elem?_of_lt old k (omega (arith, room.inside, fits)) in
        let same = room.lower k (omega arith) ∙ e in
        let within = lt→ltb (suc k) (length now) (omega (arith, room.inside, room.size, fits)) in
        elim (Position-cases (compare_block block b)) [
          | inl before ↦
              let (j, new, out, inserted) =
                insert_block_lem k (set now (suc k) b) (move_up k now b room e before) in
              (j, new, rw (insert_block, same, before, within) out, inserted)
          | inr (inl over) ↦ (
            suc k,
            set now (suc k) block,
            rw (insert_block, same, over, within) refl,
            place (suc k) now room (stop_at k b e (λ p. cc (over, p))),
          )
          | inr (inr after) ↦ (
            suc k,
            set now (suc k) block,
            rw (insert_block, same, after, within) refl,
            place (suc k) now room (stop_at k b e (λ p. cc (after, p))),
          )
        ]
      where
        stop_at :
            (k : ℕ) (b : Block)
            → get_elem? old k ≡ some b
            → compare_block block b ≢ precedes
            → (i : ℕ) (c : Block) → suc k ≡ suc i
            → get_elem? old i ≡ some c
            → compare_block block c ≢ precedes
        stop_at k b e differs i c same f p = differs (cc (p, f, e, same))
