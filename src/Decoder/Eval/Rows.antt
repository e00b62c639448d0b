-- ===== src/Decoder/Eval/Rows.antt =====
-- The loop of `vmEval_CMD` in vm/decoder.c against the rows that a list of commands goes through.
use libdvdnav.Prelude.{
  ℕ, zero, suc, ◌+◌, ◌<◌, ◌≡◌, ◌≢◌, refl, ap, ◌∙◌, ◌↔◌, inl, inr, Bool-cases, ltb, ltb→lt, lt→ltb,
  none, some, Option-cases, List, get_elem?, arith,
}
use libdvdnav.Prelude.Int.{ℤ, pos, negsuc}
use libdvdnav.Decoder.State.{Machine, Result, value, aborted, fault, ◌>>=◌}
use libdvdnav.Decoder.Eval.{VmCmd, eval_command, eval_rows, next_row, after_row, vm_eval_cmd}

plain_row : (i : ℕ) → next_row i 0 ≡ i + 1
unfolding next_row
plain_row i = refl

goto_row : (i row : ℕ) → next_row i (suc row) ≡ row
unfolding next_row
goto_row i row = ground arith

module _ (commands : List VmCmd) (num : ℕ) where
  -- Evaluation from row `i` goes through `k` commands that are no links and then one that is.
  pub data Links : ℕ → ℕ → Machine → Machine → Type 0 where
    link_here :
        {i m : ℕ} {c : VmCmd} {s s' : Machine}
        → i < num
        → get_elem? commands i ≡ some c
        → eval_command c s ≡ value (negsuc m) s'
        → Links 0 i s s'
    link_next :
        {k i : ℕ} {c : VmCmd} {s t s' : Machine}
        → i < num
        → get_elem? commands i ≡ some c
        → eval_command c s ≡ value (pos 0) t
        → Links k (i + 1) t s'
        → Links (suc k) i s s'
    -- A goto: its rows count from 1.
    link_goto :
        {k i row : ℕ} {c : VmCmd} {s t s' : Machine}
        → i < num
        → get_elem? commands i ≡ some c
        → eval_command c s ≡ value (pos (suc row)) t
        → Links k row t s'
        → Links (suc k) i s s'

  Links→rows :
      (left : ℕ) {k i : ℕ} {s s' : Machine}
      → k < left
      → Links k i s s'
      → eval_rows commands num left i s ≡ value 1 s'
  unfolding eval_rows after_row ◌>>=◌
  Links→rows zero l h = elim l [ ]
  Links→rows (suc left) {i} l (link_here b e r) = rw (lt→ltb i num b, e, r)
  Links→rows (suc left) {i} l (link_next b e r rest) =
      rw (lt→ltb i num b, e, r, plain_row i) (Links→rows left (omega arith) rest)
  Links→rows (suc left) {i} l (link_goto {row = row} b e r rest) =
      rw (lt→ltb i num b, e, r, goto_row i row) (Links→rows left (omega arith) rest)

  abbrev Found : ℕ → ℕ → Machine → Machine → Type 0
  Found left i s s' = (k : ℕ) × (k < left) × Links k i s s'

  -- One row, by what its command gives.
  row→Links :
      (left i : ℕ) (c : VmCmd) (s s' : Machine) (r : Result ℤ)
      → i < num
      → get_elem? commands i ≡ some c
      → eval_command c s ≡ r
      → ((j : ℕ) (t : Machine) → eval_rows commands num left j t ≡ value 1 s' → Found left j t s')
      → eval_rows commands num (suc left) i s ≡ value 1 s'
      → Found (suc left) i s s'
  unfolding eval_rows after_row ◌>>=◌
  row→Links left i c s s' (value (negsuc m) t) l e re ih h =
      let same = rw (lt→ltb i num l, e, re) at h in
      (0, omega arith, link_here l e (re ∙ ap (value (negsuc m)) (cc)))
  row→Links left i c s s' (value (pos zero) t) l e re ih h =
      let (k, less, links) = ih (i + 1) t (rw (lt→ltb i num l, e, re, plain_row i) at h) in
      (suc k, omega arith, link_next l e re links)
  row→Links left i c s s' (value (pos (suc row)) t) l e re ih h =
      let (k, less, links) = ih row t (rw (lt→ltb i num l, e, re, goto_row i row) at h) in
      (suc k, omega arith, link_goto l e re links)
  row→Links left i c s s' aborted l e re ih h =
      let same = rw (lt→ltb i num l, e, re) at h in absurd (cc)
  row→Links left i c s s' fault l e re ih h =
      let same = rw (lt→ltb i num l, e, re) at h in absurd (cc)

  no_row :
      (left i : ℕ) (s s' : Machine)
      → get_elem? commands i ≡ none
      → i < num
      → eval_rows commands num (suc left) i s ≢ value 1 s'
  unfolding eval_rows ◌>>=◌
  no_row left i s s' e l h = let same = rw (lt→ltb i num l, e) at h in cc

  rows→Links :
      (left i : ℕ) (s s' : Machine)
      → eval_rows commands num left i s ≡ value 1 s'
      → Found left i s s'
  unfolding eval_rows ◌>>=◌
  rows→Links zero i s s' h = absurd (cc)
  rows→Links (suc left) i s s' h = elim (Bool-cases (ltb i num)) [
    | inr done ↦ let same = rw done at h in absurd (cc)
    | inl more ↦ elim (Option-cases (get_elem? commands i)) [
      | inl e ↦ absurd (no_row left i s s' e (ltb→lt i num more) h)
      | inr (c, e) ↦
          row→Links left i c s s' (eval_command c s) (ltb→lt i num more) e refl
            (λ j t. rows→Links left j t s') h
    ]
  ]

  -- `vmEval_CMD` returns 1 exactly if the rows from the first one on lead to a link command after
  -- fewer than 100000 other commands, and the state that it leaves is the one after that command.
  pub vm_eval_cmd_iff :
      (s s' : Machine)
      → (vm_eval_cmd commands num s ≡ value 1 s') ↔ ((k : ℕ) × (k < 100000) × Links k 0 s s')
  unfolding vm_eval_cmd
  vm_eval_cmd_iff s s' = (λ h. rows→Links 100000 0 s s' h, λ h. Links→rows 100000 (h.1) (h.2))
