-- ===== src/Decoder/Safety/Program.antt =====
-- `eval_command` and `vmEval_CMD` of vm/decoder.c are total on well-formed commands.
use libdvdnav.Prelude.{
  ℕ, zero, suc, ◌≤◌, ◌<◌, ◌≡◌, refl, ◌≢◌, ◌⊎◌, inl, inr, Bool-cases, ltb, ltb→lt, lt→ltb, List,
  length, get_elem?_of_lt, All, All-get, field, arith,
}
use libdvdnav.Prelude.Int.{ℤ, pos, negsuc}
use libdvdnav.Decoder.State.{Machine, Result, no_link, M, ◌>>=◌, put_return_values, pure}
use libdvdnav.Decoder.Getbits.Field.{field-lt}
use libdvdnav.Decoder.Eval.{
  VmCmd, assemble, load, eval_command, eval_rows, vm_eval_cmd, next_row, after_row, max_rounds,
}
use libdvdnav.Decoder.Safety.{IsSound, Fits, NamesRegisters, During, Returns, returns, Total}
use libdvdnav.Decoder.Safety.Rules.{Any, bind, bits, Returns-bind}
use libdvdnav.Decoder.Safety.Command.{dispatch-Total}

-- The bytes of a command that the interpreter accepts: not of type 7, and where it reads an operand
-- from a register, there is that register.
pub record IsCommand (c : VmCmd) : Type 0 where
  pub known : field (assemble c) 63 3 ≢ 7
  pub operands : NamesRegisters (assemble c)

-- What an action leaves: sound registers, and a link whose data fit 16 bits.
pub record Leaves (s : Machine) : Type 0 where
  pub sound : IsSound s.registers
  pub fits : Fits s.return_values

Returns-Leaves :
    {w : ℕ} {A : Type 0} (r : Result A)
    → Returns (λ a s'. Any a × During w s') r
    → Returns (λ _ s'. Leaves s') r
Returns-Leaves r (returns h) = returns (record { sound = h.1.sound; fits = h.1.fits })

load-During :
    (c : VmCmd) (s : Machine) {A : Type 0} (m : M A)
    → IsSound s.registers
    → Total (assemble c) Any m
    → Returns (λ _ s'. Leaves s') ((load c >>= λ _. m) s)
unfolding load ◌>>=◌
load-During c s m ok t =
    Returns-Leaves _ (t.run _ (record { word = refl; sound = ok; fits = omega arith }))

-- A command of a known type returns, if the registers that its type, operator and immediate flags make
-- it read exist: it reaches no `abort` and no
-- access outside an array; it leaves every register array with its size and every register within
-- its width, and the operands of the link within 16 bits.
pub eval_command_total :
    (c : VmCmd) (s : Machine)
    → IsSound s.registers
    → IsCommand c
    → Returns (λ _ s'. Leaves s') (eval_command c s)
unfolding eval_command
eval_command_total c s ok h = load-During c s _ ok (
    bind (assemble c) (bits (assemble c) 63 3 refl) λ kind e.
      dispatch-Total h.operands kind e (omega (arith, h.known, field-lt (assemble c) 63 3)))

-- What `vmEval_CMD` has done when it returns `r`: a link was found (1), or it was cleared (0).
pub record Evaluated (r : ℕ) (s : Machine) : Type 0 where
  pub flag : (r ≡ 0) ⊎ (r ≡ 1)
  pub sound : IsSound s.registers
  pub fits : Fits s.return_values
  pub cleared : r ≡ 0 → s.return_values ≡ no_link

clear-Evaluated :
    (s : Machine)
    → IsSound s.registers
    → Returns Evaluated ((put_return_values no_link >>= λ _. pure 0) s)
unfolding ◌>>=◌
clear-Evaluated s ok =
    returns (record { flag = inl refl; sound = ok; fits = omega arith; cleared = λ _. refl })

module _ (commands : List VmCmd) (num : ℕ) (all : All IsCommand commands)
    (fit : num ≤ length commands) where
  after_row_total :
      (line : ℤ) (s : Machine) (continue : ℕ → M ℕ)
      → Leaves s
      → ((n : ℕ) (s' : Machine) → IsSound s'.registers → Returns Evaluated (continue n s'))
      → Returns Evaluated (after_row line continue s)
  unfolding after_row ◌>>=◌
  after_row_total (negsuc k) s continue l rest = returns (record {
    flag = inr refl;
    sound = l.sound;
    fits = l.fits;
    cleared = λ e. absurd (omega arith);
  })
  after_row_total (pos n) s continue l rest = rest n s l.sound

  -- A row that exists, with the loop after it.
  row_total :
      (left i : ℕ) (s : Machine)
      → IsSound s.registers
      → i < num
      → ((n : ℕ) (s' : Machine)
          → IsSound s'.registers
          → Returns Evaluated (eval_rows commands num left (next_row i n) s'))
      → Returns Evaluated (eval_rows commands num (suc left) i s)
  unfolding eval_rows ◌>>=◌
  row_total left i s ok l rest =
      let (c, e) = get_elem?_of_lt commands i (omega arith) in
      rw (lt→ltb i num l, e)
        (Returns-bind (eval_command c) _ s
          (eval_command_total c s ok (All-get IsCommand commands i c all e))
          (λ line s' h. after_row_total line s' _ h rest))

  eval_rows_total :
      (left i : ℕ) (s : Machine)
      → IsSound s.registers
      → Returns Evaluated (eval_rows commands num left i s)
  unfolding eval_rows ◌>>=◌
  eval_rows_total zero i s ok = clear-Evaluated s ok
  eval_rows_total (suc left) i s ok = elim (Bool-cases (ltb i num)) [
    | inl more ↦
        row_total left i s ok (ltb→lt i num more)
          (λ n s' ok'. eval_rows_total left (next_row i n) s' ok')
    | inr done ↦ rw done (clear-Evaluated s ok)
  ]

  -- A list of well-formed commands is evaluated to the end: `vmEval_CMD` returns 0 or 1, whatever
  -- loops the gotos make, with the registers sound and, at 0, the link cleared.
  pub vm_eval_cmd_total :
      (s : Machine) → IsSound s.registers → Returns Evaluated (vm_eval_cmd commands num s)
  unfolding vm_eval_cmd
  vm_eval_cmd_total s ok = eval_rows_total max_rounds 0 s ok
