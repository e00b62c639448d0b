-- ===== src/Decoder/Compare/Meaning.antt =====
-- The comparison codes of vm/decoder.c as relations between numbers.
use libdvdnav.Prelude.{ℕ, zero, suc, ◌≤◌, ◌<◌, ◌≡◌, refl, ◌≢◌, ◌↔◌, bit_and, arith}
use libdvdnav.Decoder.Compare.{eval_compare}

-- What a comparison code asks of its two operands.
abbrev pub Compares : ℕ → ℕ → ℕ → Type 0
Compares zero a b = ⊥
Compares (suc zero) a b = bit_and a b ≢ 0
Compares (suc (suc zero)) a b = a ≡ b
Compares (suc (suc (suc zero))) a b = a ≢ b
Compares (suc (suc (suc (suc zero)))) a b = b ≤ a
Compares (suc (suc (suc (suc (suc zero))))) a b = b < a
Compares (suc (suc (suc (suc (suc (suc zero)))))) a b = a ≤ b
Compares (suc (suc (suc (suc (suc (suc (suc zero))))))) a b = a < b
Compares (suc (suc (suc (suc (suc (suc (suc (suc n)))))))) a b = ⊥

-- A condition is true (not 0) exactly if the relation that the code stands for holds: 1 is a common
-- bit, 2 to 7 are =, ≠, ≥, >, ≤ and <; codes 0 and above 7 are never true.
pub eval_compare_iff : (op a b : ℕ) → (eval_compare op a b ≢ 0) ↔ Compares op a b
unfolding eval_compare
eval_compare_iff zero a b = (λ h. absurd (h refl), λ h. absurd h)
eval_compare_iff (suc zero) a b = (λ h. h, λ h. h)
eval_compare_iff (suc (suc zero)) a b = ground arith
eval_compare_iff (suc (suc (suc zero))) a b = ground arith
eval_compare_iff (suc (suc (suc (suc zero)))) a b = ground arith
eval_compare_iff (suc (suc (suc (suc (suc zero))))) a b = ground arith
eval_compare_iff (suc (suc (suc (suc (suc (suc zero)))))) a b = ground arith
eval_compare_iff (suc (suc (suc (suc (suc (suc (suc zero))))))) a b = ground arith
eval_compare_iff (suc (suc (suc (suc (suc (suc (suc (suc n)))))))) a b = ground arith
