-- ===== src/Decoder/Safety/Command.antt =====
-- A command as a whole is total: it keeps the registers sound, and stops in neither an `abort` nor
-- an access outside an array.
use libdvdnav.Prelude.{
  ℕ, ◌+◌, ◌-◌, ◌*◌, ◌<◌, ◌≡◌, ◌≤◌, refl, true, false, arith, ◌==◌, subst, truth, field,
}
use libdvdnav.Decoder.State.{◌>>=◌}
use libdvdnav.Decoder.Registers.{get_gprm, set_gprm}
use libdvdnav.Decoder.Sets.{
  set_stream, set_system, eval_system_set, eval_set_op, eval_set_version_1, eval_set_version_2,
}
use libdvdnav.Decoder.Eval.{eval_set_link, dispatch}
use libdvdnav.Decoder.Safety.{NamesRegisters, Register, System, Total}
use libdvdnav.Decoder.Safety.Rules.{Any, in_range, bind, branch, bits, done, random, write_sprm}
use libdvdnav.Decoder.Safety.Operands.{
  get_gprm-Total, set_gprm-Total, set_mode-Total, eval_reg_or_data-Total, eval_reg_or_data_2-Total,
  nibble, nibble-lt,
}
use libdvdnav.Decoder.Safety.Branches.{
  eval_if_version_1-Total, eval_if_version_2-Total, eval_if_version_3-Total,
  eval_if_version_4-Total, eval_special_instruction-Total, eval_link_subins-Total,
  eval_link_instruction-Total, eval_jump_instruction-Total,
}

-- The number of a case, on the field.
case_of : {a b : ℕ} → a ≡ b → (n : ℕ) → (a == n) ≡ true → b ≡ n
case_of e n t = ground (arith, e, t)

module _ {w : ℕ} where
  set_stream-Total :
      (cond i : ℕ)
      → in_range w (63 - (2 + i) * 8) 1 ≡ true
      → in_range w (47 - i * 8 - 1) 7 ≡ true
      → in_range w (47 - i * 8 - 4) 4 ≡ true
      → Total w Any (set_stream cond i)
  unfolding set_stream
  set_stream-Total cond i p q r = bind w (bits w _ 1 p) λ present _.
      branch w
        (λ _. bind w (bits w 60 1 refl) λ imm _.
          bind w (eval_reg_or_data_2-Total imm _ q r)
            λ d _. branch w (λ _. write_sprm w i d) (λ _. done tt))
        (λ _. done tt)

  eval_set_op-Total :
      (op reg reg2 d : ℕ) → reg < 16 → reg2 < 16 → Total w Any (eval_set_op op reg reg2 d)
  unfolding eval_set_op
  eval_set_op-Total op reg reg2 d h k =
      branch w (λ _. write d)
        λ _.
          branch w
            (λ _.
              bind w (get_gprm-Total reg h)
                λ old _. bind w (set_gprm-Total reg2 old k) λ _ _. write d)
            λ _.
              branch w (λ _. update _)
                λ _.
                  branch w (λ _. update _)
                    λ _.
                      branch w (λ _. update _)
                        λ _.
                          branch w (λ _. branch w (λ _. update _) (λ _. write _))
                            λ _.
                              branch w (λ _. branch w (λ _. update _) (λ _. write _))
                                λ _.
                                  branch w (λ _. bind w (random w) λ r _. write _)
                                    λ _.
                                      branch w (λ _. update _)
                                        λ _.
                                          branch w (λ _. update _)
                                            λ _. branch w (λ _. update _) (λ _. done tt)
    where
      write : (v : ℕ) → Total w Any (set_gprm reg v)
      write v = set_gprm-Total reg v h

      update : (f : ℕ → ℕ) → Total w Any (do old ← get_gprm reg; set_gprm reg (f old))
      update f = bind w (get_gprm-Total reg h) λ old _. write (f old)

  set_system-Total : System w → (cond : ℕ) → Total w Any (set_system cond)
  unfolding set_system
  set_system-Total n cond = bind w (bits w 59 4 refl) λ kind k.
      branch w
        (λ _. bind w (set_stream-Total cond 1 refl refl refl) λ _ _.
          bind w (set_stream-Total cond 2 refl refl refl)
            λ _ _. set_stream-Total cond 3 refl refl refl)
        λ _.
          branch w
            (λ t. bind w (bits w 60 1 refl) λ imm f.
              bind w (eval_reg_or_data-Total 60 imm 47 f (n.timer (case_of k 2 t)) refl refl)
                λ time _. bind w (bits w 23 8 refl) λ pgc _.
                  branch w (λ _. bind w (write_sprm w 9 time) λ _ _. write_sprm w 10 pgc)
                    (λ _. done tt))
            λ _.
              branch w
                (λ t. bind w (bits w 60 1 refl) λ imm f.
                  bind w (eval_reg_or_data-Total 60 imm 47 f (n.counter (case_of k 3 t)) refl refl)
                    λ d _. bind w (bits w 19 4 refl) λ reg e. bind w (bits w 23 1 refl) λ counter _.
                      bind w (set_mode-Total reg counter (nibble-lt w 19 reg e)) λ _ _.
                        branch w (λ _. set_gprm-Total reg d (nibble-lt w 19 reg e)) (λ _. done tt))
                λ _.
                  branch w
                    (λ t. bind w (bits w 60 1 refl) λ imm f.
                      bind w
                        (eval_reg_or_data-Total 60 imm 31 f (n.button (case_of k 6 t)) refl refl)
                        λ d _. branch w (λ _. write_sprm w 8 d) (λ _. done tt))
                    (λ _. done tt)

  eval_system_set-Total : System w → (cond : ℕ) → Total w Any (eval_system_set cond)
  unfolding eval_system_set
  eval_system_set-Total n cond = bind w (set_system-Total n cond) λ _ _.
      bind w (bits w 51 4 refl)
        λ link _. branch w (λ _. eval_link_instruction-Total cond) (λ _. done _)

  eval_set_version_1-Total : Register w 60 23 → (cond : ℕ) → Total w Any (eval_set_version_1 cond)
  unfolding eval_set_version_1
  eval_set_version_1-Total n cond = bind w (bits w 59 4 refl) λ op _.
      bind w (bits w 35 4 refl) λ reg e. bind w (bits w 19 4 refl) λ reg2 f.
        bind w (bits w 60 1 refl) λ imm i.
          bind w (eval_reg_or_data-Total 60 imm 31 i n refl refl) λ d _.
            branch w (λ _. eval_set_op-Total _ _ _ d (nibble w 35 reg e) (nibble w 19 reg2 f))
              (λ _. done tt)

  eval_set_version_2-Total : Register w 60 39 → (cond : ℕ) → Total w Any (eval_set_version_2 cond)
  unfolding eval_set_version_2
  eval_set_version_2-Total n cond = bind w (bits w 59 4 refl) λ op _.
      bind w (bits w 51 4 refl) λ reg e. bind w (bits w 35 4 refl) λ reg2 f.
        bind w (bits w 60 1 refl) λ imm i.
          bind w (eval_reg_or_data-Total 60 imm 47 i n refl refl) λ d _.
            branch w (λ _. eval_set_op-Total _ _ _ d (nibble w 51 reg e) (nibble w 35 reg2 f))
              (λ _. done tt)

  eval_set_link-Total : (cond : ℕ) → Total w Any (eval_set_link cond)
  unfolding eval_set_link
  eval_set_link-Total cond =
      bind w (bits w 51 4 refl)
        λ link _. branch w (λ _. eval_link_instruction-Total cond) (λ _. done _)

  pub dispatch-Total :
      NamesRegisters w → (kind : ℕ) → kind ≡ field w 63 3 → kind < 7 → Total w Any (dispatch kind)
  unfolding dispatch
  dispatch-Total n kind e h =
      branch w
        (λ t.
          bind w (eval_if_version_1-Total (n.special (case_of e 0 t)))
            λ cond _. bind w (eval_special_instruction-Total cond) λ line _. done _)
        λ p0.
          branch w
            (λ t. bind w (bits w 60 1 refl) λ jump j.
              branch w
                (λ u.
                  bind w
                    (eval_if_version_2-Total
                      (n.jump (case_of e 1 t) (subst (λ i. truth i ≡ true) j u)))
                    λ cond _. bind w (eval_jump_instruction-Total cond) λ res _. done _)
                (λ u.
                  bind w
                    (eval_if_version_1-Total
                      (n.link (case_of e 1 t) (subst (λ i. truth i ≡ false) j u)))
                    λ cond _. bind w (eval_link_instruction-Total cond) λ res _. done _))
            λ p1.
              branch w
                (λ t. bind w (eval_if_version_2-Total (n.system_if (case_of e 2 t))) λ cond _.
                  bind w (eval_system_set-Total (n.system (case_of e 2 t)) cond) λ res _. done _)
                λ p2.
                  branch w
                    (λ t. bind w (eval_if_version_3-Total (n.set_if (case_of e 3 t))) λ cond _.
                      bind w (eval_set_version_1-Total (n.set_operand (case_of e 3 t)) cond)
                        λ _ _. bind w (eval_set_link-Total cond) λ res _. done _)
                    λ p3.
                      branch w
                        (λ t.
                          bind w
                            (eval_set_version_2-Total (n.sublink_operand (late e 4 t (omega arith)))
                              1)
                            λ _ _.
                              bind w
                                (eval_if_version_4-Total (n.sublink_if (late e 4 t (omega arith))))
                                λ cond _. bind w (eval_link_subins-Total cond) λ res _. done _)
                        λ p4.
                          branch w
                            (λ t.
                              bind w
                                (eval_if_version_4-Total (n.sublink_if (late e 5 t (omega arith))))
                                λ cond _.
                                  bind w
                                    (eval_set_version_2-Total
                                      (n.sublink_operand (late e 5 t (omega arith))) cond)
                                    λ _ _. bind w (eval_link_subins-Total cond) λ res _. done _)
                            λ p5.
                              branch w
                                (λ t.
                                  bind w
                                    (eval_if_version_4-Total
                                      (n.sublink_if (late e 6 t (omega arith))))
                                    λ cond _.
                                      bind w
                                        (eval_set_version_2-Total
                                          (n.sublink_operand (late e 6 t (omega arith))) cond)
                                        λ _ _. bind w (eval_link_subins-Total 1) λ res _. done _)
                                (λ p6. absurd (ground arith))
    where
      late : {a b : ℕ} → a ≡ b → (k : ℕ) → (a == k) ≡ true → 4 ≤ k → 4 ≤ b
      late e k t l = ground (arith, e, t, l)
