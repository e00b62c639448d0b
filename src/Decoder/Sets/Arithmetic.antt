-- ===== src/Decoder/Sets/Arithmetic.antt =====
-- What the set operations of vm/decoder.c compute, as arithmetic that does not wrap.
use Prim.Native.Nat.{suc-le-suc}
use native.Mathlib.Nat.{mod-eq_of_lt, le_trans, div-le_self, mod-le}
use libdvdnav.Prelude.{
  ℕ, zero, suc, ◌+◌, ◌-◌, ◌*◌, ◌/◌, ◌%◌, ◌^◌, ◌≤◌, ◌<◌, ◌≡◌, ◌≢◌, ◌∙◌, ap, ap₂, sym, ◌!=◌,
  get_elem?-set_ne, bit_and, bit_or, bit_xor, min, bit_and-lt, bit_or-lt, bit_xor-lt, true, false,
  truth, some, get_elem?, set, u16, arith, Bool-cases, inl, inr, if◌then◌else◌, ltb, ltb→lt,
}
use libdvdnav.Decoder.State.{Machine, value, ◌>>=◌}
use libdvdnav.Decoder.Registers.{get_gprm, set_gprm}
use libdvdnav.Decoder.Sets.{product, eval_set_op}

-- The result of operation `op` on a register that holds `old`, for the operations with a result
-- that depends on nothing else. Sums stop at 0xffff and differences at 0, and so do products that an
-- `int` holds; of a larger product the low 16 bits stay. A quotient or a rest by 0 is 0xffff.
pub data Operation : Type 0 where
  assign add subtract multiply divide modulo bit_and_op bit_or_op bit_xor_op : Operation

abbrev pub code : Operation → ℕ
code assign = 1
code add = 3
code subtract = 4
code multiply = 5
code divide = 6
code modulo = 7
code bit_and_op = 9
code bit_or_op = 10
code bit_xor_op = 11

abbrev pub result : Operation → ℕ → ℕ → ℕ
result assign old d = d
result add old d = min (old + d) 0xffff
result subtract old d = old - d
result multiply old d = if ltb (old * d) (2 ^ 31) then min (old * d) 0xffff else old * d % 2 ^ 16
result divide old zero = 0xffff
result divide old (suc d) = old / suc d
result modulo old zero = 0xffff
result modulo old (suc d) = old % suc d
result bit_and_op old d = bit_and old d
result bit_or_op old d = bit_or old d
result bit_xor_op old d = bit_xor old d

-- General register `reg` of the machine holds `v`, and is no counter.
pub record Holds (s : Machine) (reg v : ℕ) : Type 0 where
  pub plain : (m : ℕ) × (get_elem? s.registers.gprm_mode reg ≡ some m) × (bit_and m 1 ≡ 0)
  pub content : get_elem? s.registers.gprm reg ≡ some v

-- The machine with `v` in general register `reg`, and nothing else changed.
abbrev pub written : Machine → ℕ → ℕ → Machine
written s reg v = record s {
  registers = record (s.registers) { gprm = set s.registers.gprm reg v };
}

plain_test : (m : ℕ) → bit_and m 1 ≡ 0 → truth (bit_and m 1) ≡ false
plain_test m e = ground arith

get_gprm-Holds : (s : Machine) (reg v : ℕ) → Holds s reg v → get_gprm reg s ≡ value v s
unfolding get_gprm ◌>>=◌
get_gprm-Holds s reg v h = let (m, e, z) = h.plain in rw (e, plain_test m z, h.content)

set_gprm-Holds :
    (s : Machine) (reg v x : ℕ)
    → Holds s reg v
    → set_gprm reg x s ≡ value tt (written s reg (u16 x))
unfolding set_gprm ◌>>=◌
set_gprm-Holds s reg v x h = let (m, e, z) = h.plain in rw (e, plain_test m z)

-- Read, compute, write back.
update-Holds :
    (s : Machine) (reg v : ℕ) (f : ℕ → ℕ)
    → Holds s reg v
    → (do old ← get_gprm reg; set_gprm reg (f old)) s ≡ value tt (written s reg (u16 (f v)))
unfolding ◌>>=◌
update-Holds s reg v f h = rw (get_gprm-Holds s reg v h) (set_gprm-Holds s reg v (f v) h)

nonzero : (d : ℕ) → (suc d != 0) ≡ true
nonzero d = ground arith

into :
    (s : Machine) (reg : ℕ) {v w : ℕ}
    → v ≡ w
    → value tt (written s reg v) ≡ value tt (written s reg w)
into s reg e = ap (λ t. value tt (written s reg t)) e

product_exact : (a b : ℕ) → a * b < 2 ^ 31 → u16 (product a b) ≡ min (a * b) 0xffff
unfolding product
product_exact a b h = ground arith

product_overflow :
    (a b : ℕ) → a < 2 ^ 16 → b < 2 ^ 16 → 2 ^ 31 ≤ a * b → u16 (product a b) ≡ a * b % 2 ^ 16
unfolding product
product_overflow a b p q h = let bound : a * b < 2 ^ 32 = grind arith in ground arith

product_result : (a b : ℕ) → a < 2 ^ 16 → b < 2 ^ 16 → u16 (product a b) ≡ result multiply a b
product_result a b p q = elim (Bool-cases (ltb (a * b) (2 ^ 31))) [
  | inl exact ↦ rw (exact) (product_exact a b (ltb→lt _ _ exact))
  | inr large ↦ rw (large) (product_overflow a b p q (ground (arith, large)))
]

-- The assignment, the sum, the difference, the product, the quotient, the rest and the three bit
-- operations write their result to a register that is no counter and change nothing else, when the
-- operands are 16-bit. The swap and the random number are other operations.
pub eval_set_op_lem :
    (o : Operation) (s : Machine) (reg reg2 old d : ℕ)
    → Holds s reg old
    → old < 2 ^ 16
    → d < 2 ^ 16
    → eval_set_op (code o) reg reg2 d s ≡ value tt (written s reg (result o old d))
unfolding eval_set_op ◌>>=◌
eval_set_op_lem assign s reg reg2 old d h p q =
    set_gprm-Holds s reg old d h ∙ into s reg (omega arith)
eval_set_op_lem add s reg reg2 old d h p q = update-Holds s reg old _ h ∙ into s reg (ground arith)
eval_set_op_lem subtract s reg reg2 old d h p q =
    update-Holds s reg old _ h ∙ into s reg (ground arith)
eval_set_op_lem multiply s reg reg2 old d h p q =
    update-Holds s reg old _ h ∙ into s reg (product_result old d p q)
eval_set_op_lem divide s reg reg2 old zero h p q = set_gprm-Holds s reg old 0xffff h
eval_set_op_lem divide s reg reg2 old (suc d) h p q = rw (nonzero d) (
    update-Holds s reg old (λ t. t / suc d) h
    ∙ into s reg (mod-eq_of_lt (le_trans (suc-le-suc (div-le_self old (suc d))) p)))
eval_set_op_lem modulo s reg reg2 old zero h p q = set_gprm-Holds s reg old 0xffff h
eval_set_op_lem modulo s reg reg2 old (suc d) h p q = rw (nonzero d) (
    update-Holds s reg old (λ t. t % suc d) h
    ∙ into s reg (mod-eq_of_lt (le_trans (suc-le-suc (mod-le old (suc d))) p)))
eval_set_op_lem bit_and_op s reg reg2 old d h p q =
    update-Holds s reg old _ h ∙ into s reg (mod-eq_of_lt (bit_and-lt 16 old d p q))
eval_set_op_lem bit_or_op s reg reg2 old d h p q =
    update-Holds s reg old _ h ∙ into s reg (mod-eq_of_lt (bit_or-lt 16 old d p q))
eval_set_op_lem bit_xor_op s reg reg2 old d h p q =
    update-Holds s reg old _ h ∙ into s reg (mod-eq_of_lt (bit_xor-lt 16 old d p q))

-- The swap exchanges the contents of two registers that are no counters, when the operand is the
-- content of the second one.
swap_lem :
    (s : Machine) (reg reg2 old d : ℕ)
    → reg ≢ reg2
    → Holds s reg old
    → Holds s reg2 d
    → old < 2 ^ 16
    → d < 2 ^ 16
    → eval_set_op 2 reg reg2 d s ≡ value tt (written (written s reg2 old) reg d)
unfolding eval_set_op ◌>>=◌
swap_lem s reg reg2 old d ne h k p q =
    rw (get_gprm-Holds s reg old h, set_gprm-Holds s reg2 d old k)
      (set_gprm-Holds (written s reg2 (u16 old)) reg old d kept
        ∙ ap₂ (λ a b. value tt (written (written s reg2 a) reg b)) (mod-eq_of_lt p)
            (mod-eq_of_lt q))
  where
    kept : Holds (written s reg2 (u16 old)) reg old
    kept = record {
      plain = h.plain;
      content = get_elem?-set_ne s.registers.gprm reg2 reg (u16 old) (λ e. ne (sym e)) ∙ h.content;
    }
