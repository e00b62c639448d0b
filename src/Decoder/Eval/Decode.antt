-- ===== src/Decoder/Eval/Decode.antt =====
-- What the interpreter makes of an instruction word: links and jumps are decoded exactly.
pub mod Jumps
pub mod Transfers
pub mod Whole
use native.Mathlib.Nat.{mod-eq_of_lt}
use libdvdnav.Prelude.{
  ap, ap₂, ℕ, ◌+◌, ◌*◌, ◌^◌, ◌≤◌, ◌<◌, ◌≡◌, refl, ◌∙◌, Bool, true, false, field, u8, u16, truth,
  arith,
}
use libdvdnav.Decoder.State.{
  LinkCmd, Link, no_link, Registers, Machine, Result, value, M, ◌>>=◌, ◌>>◌, when◌then◌else◌, pure,
}
use libdvdnav.Decoder.Getbits.{vm_getbits}
use libdvdnav.Decoder.Getbits.Field.{vm_getbits_lem}
use libdvdnav.Decoder.Links.{
  return_command, return_data1, return_data2, return_data3, eval_link_instruction, eval_link_subins,
  eval_jump_instruction, eval_jump_ss, eval_call_ss,
}
use libdvdnav.Decoder.Links.Encoding.{
  Transfer, link_sub, pgcn, pttn, pgn, cn, Jump, leave, title, vts_title, vts_part, first_play,
  vmgm_menu, vts_menu, vmgm_pgc, call_first_play, call_vmgm_menu, call_vts_menu, call_vmgm_pgc,
  TransferFits, JumpFits, transfer_word, jump_word, transfer_link, jump_link,
}
use libdvdnav.Decoder.Safety.{Returns, returns}
use libdvdnav.Decoder.Safety.Rules.{Returns-bind, in_range}

-- The state during the evaluation of word `w`, with registers `r` and the link `l` so far.
pub record Holding (w : ℕ) (r : Registers) (l : Link) (s : Machine) : Type 0 where
  pub word : s.instruction ≡ w
  pub kept : s.registers ≡ r
  pub so_far : s.return_values ≡ l

-- In word `w`, `m` returns `a`, turns the link `l` into `l'`, and leaves the registers alone.
pub record Emits (w : ℕ) (r : Registers) (l : Link) {A : Type 0} (a : A) (l' : Link) (m : M A)
    : Type 0 where
  pub run : (s : Machine) → Holding w r l s → Returns (λ x s'. (x ≡ a) × Holding w r l' s') (m s)

module _ {w : ℕ} {r : Registers} where
  pub seq :
      {l l' l'' : Link} {A B : Type 0} {a : A} {b : B} {m : M A} (f : A → M B)
      → Emits w r l a l' m
      → Emits w r l' b l'' (f a)
      → Emits w r l b l'' (m >>= f)
  seq {l'' = l''} {b = b} {m = m} f first next = record {
    run = λ s h. Returns-bind m f s (first.run s h) (λ x s' g. rw (g.0) (next.run s' g.1));
  }

  pub give : {l : Link} {A : Type 0} (a : A) → Emits w r l a l (pure a)
  unfolding ◌>>=◌
  give a = record { run = λ s h. returns (refl, h) }

  pub taken :
      {l l' : Link} {A : Type 0} {a : A} {b : Bool} {m : M A} (n : M A)
      → b ≡ true
      → Emits w r l a l' m
      → Emits w r l a l' (when b then m else n)
  unfolding ◌>>=◌
  taken n e k = rw e k

  pub skipped :
      {l l' : Link} {A : Type 0} {a : A} {b : Bool} (m : M A) {n : M A}
      → b ≡ false
      → Emits w r l a l' n
      → Emits w r l a l' (when b then m else n)
  unfolding ◌>>=◌
  skipped m e k = rw e k

  pub read :
      {l : Link} (start count v : ℕ)
      → in_range w start count ≡ true
      → field w start count ≡ v
      → Emits w r l v l (vm_getbits start count)
  read start count v p e = record {
    run = λ s h.
        rw
          (vm_getbits_lem start count s (ground arith) (ground arith) (ground arith) (ground arith))
          (returns (
            ap (λ (t : ℕ). field t start count) h.word ∙ e,
            record { word = h.word; kept = h.kept; so_far = h.so_far },
          ));
  }

  module _ {l : Link} where
    pub command : (c : LinkCmd) → Emits w r l tt (record l { command = c }) (return_command c)
    unfolding return_command
    command c = record {
      run = λ s h. returns (
        refl,
        record {
          word = h.word;
          kept = h.kept;
          so_far = ap (λ (k : Link). record k { command = c }) h.so_far;
        },
      );
    }

    pub first : (d : ℕ) → d < 2 ^ 16 → Emits w r l tt (record l { data1 = d }) (return_data1 d)
    unfolding return_data1
    first d small = record {
      run = λ s h. returns (
        refl,
        record {
          word = h.word;
          kept = h.kept;
          so_far = ap₂ (λ (k : Link) (v : ℕ). record k { data1 = v }) h.so_far (mod-eq_of_lt small);
        },
      );
    }

    pub second : (d : ℕ) → d < 2 ^ 16 → Emits w r l tt (record l { data2 = d }) (return_data2 d)
    unfolding return_data2
    second d small = record {
      run = λ s h. returns (
        refl,
        record {
          word = h.word;
          kept = h.kept;
          so_far = ap₂ (λ (k : Link) (v : ℕ). record k { data2 = v }) h.so_far (mod-eq_of_lt small);
        },
      );
    }

    pub third : (d : ℕ) → d < 2 ^ 16 → Emits w r l tt (record l { data3 = d }) (return_data3 d)
    unfolding return_data3
    third d small = record {
      run = λ s h. returns (
        refl,
        record {
          word = h.word;
          kept = h.kept;
          so_far = ap₂ (λ (k : Link) (v : ℕ). record k { data3 = v }) h.so_far (mod-eq_of_lt small);
        },
      );
    }

  -- An action that emits a command and reads one operand.
  pub one :
      {l : Link} (cond : ℕ) (c : LinkCmd) (start count v : ℕ)
      → in_range w start count ≡ true
      → field w start count ≡ v
      → v < 2 ^ 16
      → Emits w r l cond
          (record l { command = c; data1 = v })
          (do return_command c; d ← vm_getbits start count; return_data1 d; pure cond)
  one cond c start count v p e small =
      seq _ (command c) (seq _ (read start count v p e) (seq _ (first v small) (give cond)))

  -- The same with two operands.
  pub two :
      {l : Link} (cond : ℕ) (c : LinkCmd) (start count v start' count' v' : ℕ)
      → in_range w start count ≡ true
      → in_range w start' count' ≡ true
      → (field w start count ≡ v) × (v < 2 ^ 16)
      → (field w start' count' ≡ v') × (v' < 2 ^ 16)
      → Emits w r l cond
          (record l { command = c; data1 = v; data2 = v' })
          (do
            return_command c
            d ← vm_getbits start count
            return_data1 d
            e ← vm_getbits start' count'
            return_data2 e
            pure cond)
  two cond c start count v start' count' v' p q e f = seq _ (command c) (
      seq _ (read start count v p (e.0)) (
        seq _ (first v (e.1))
          (seq _ (read start' count' v' q (f.0)) (seq _ (second v' (f.1)) (give cond)))))
