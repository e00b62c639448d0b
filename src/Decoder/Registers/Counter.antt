-- ===== src/Decoder/Registers/Counter.antt =====
-- Counter mode of vm/decoder.c: a general register that counts seconds.
use libdvdnav.Prelude.{
  ℕ, ◌+◌, ◌-◌, ◌*◌, ◌/◌, ◌%◌, ◌^◌, ◌≤◌, ◌<◌, ◌≡◌, true, bit_and, bit_and_mask, truth, some,
  get_elem?, get_elem?-set_self, sub64, u16, arith,
}
use libdvdnav.Decoder.State.{Timeval, Machine, ◌>>=◌}
use libdvdnav.Decoder.Registers.{elapsed, get_gprm, set_gprm}
use libdvdnav.Decoder.Safety.{IsSound, Returns, returns}

abbrev pub microseconds : Timeval → ℕ
microseconds t = t.tv_sec * 1000000 + t.tv_usec

-- A reading of the clock: a 64-bit number of seconds, and microseconds below a second.
pub record IsTime (t : Timeval) : Type 0 where
  pub seconds : t.tv_sec < 2 ^ 64
  pub below : t.tv_usec < 1000000

counted :
    (v : ℕ) (t t' : Timeval)
    → IsTime t
    → IsTime t'
    → microseconds t ≤ microseconds t'
    → u16 (bit_and (elapsed t' (record t { tv_sec = sub64 t.tv_sec (u16 v) })) 0xffff)
      ≡ (v + (microseconds t' - microseconds t) / 1000000) % 2 ^ 16
unfolding elapsed
counted v t t' h h' l =
    rw (bit_and_mask 16 (elapsed t' (record t { tv_sec = sub64 t.tv_sec (u16 v) }))) (ground arith)

-- A register in counter mode that is set to a value and read later holds the value and the whole
-- seconds that passed between the two readings of the clock, modulo 2 ^ 16.
pub counter_elapsed :
    (reg v : ℕ) (s : Machine) (mode : ℕ)
    → IsSound s.registers
    → reg < 16
    → get_elem? s.registers.gprm_mode reg ≡ some mode
    → bit_and mode 1 ≡ 1
    → let t = s.world.clock s.world.clock_reads in
      let t' = s.world.clock (s.world.clock_reads + 1) in
      IsTime t
      → IsTime t'
      → microseconds t ≤ microseconds t'
      → Returns
          (λ x _. x ≡ (v + (microseconds t' - microseconds t) / 1000000) % 2 ^ 16)
          ((set_gprm reg v >>= λ _. get_gprm reg) s)
unfolding get_gprm set_gprm ◌>>=◌
counter_elapsed reg v s mode ok l e odd h h' le =
    rw
      (
        e,
        counting mode odd,
        e,
        counting mode odd,
        get_elem?-set_self s.registers.gprm_time reg _ (omega (arith, ok)),
      )
      (returns (
        counted v (s.world.clock s.world.clock_reads) (s.world.clock (s.world.clock_reads + 1)) h h'
          le))
  where
    counting : (m : ℕ) → bit_and m 1 ≡ 1 → truth (bit_and m 1) ≡ true
    counting m e = ground arith
