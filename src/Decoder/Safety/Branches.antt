-- ===== src/Decoder/Safety/Branches.antt =====
-- The comparisons, the links and the jumps of vm/decoder.c are total.
use libdvdnav.Prelude.{ℕ, ◌≡◌, refl, true, truth, u8, arith, field}
use libdvdnav.Decoder.State.{
  LinkCmd, link_pgcn, link_pttn, link_pgn, link_cn, jump_tt, jump_vts_tt, jump_vts_ptt,
  jump_ss_vmgm_menu, jump_ss_vmgm_pgc, call_ss_fp, call_ss_vmgm_menu, call_ss_vtsm,
  call_ss_vmgm_pgc, ◌>>=◌, ◌>>◌, pure,
}
use libdvdnav.Decoder.Getbits.{vm_getbits}
use libdvdnav.Decoder.Getbits.Field.{field-lt}
use libdvdnav.Decoder.Compare.{
  eval_if_version_1, eval_if_version_2, eval_if_version_3, eval_if_version_4,
}
use libdvdnav.Decoder.Links.{
  eval_special_instruction, eval_link_subins, eval_link_instruction, eval_jump_ss, eval_call_ss,
  eval_jump_instruction, return_command, return_data1, return_data2,
}
use libdvdnav.Decoder.Safety.{Compares, If1, If2, If3, Register, Total}
use libdvdnav.Decoder.Safety.Rules.{
  Any, in_range, bind, branch, bits, done, link_command, link_data1, link_data2, link_data3,
  write_sprm,
}
use libdvdnav.Decoder.Safety.Operands.{operand-Total, eval_reg_or_data-Total, nibble-Total}

module _ (w : ℕ) where
  -- The test of the operator, on the field.
  compares : {op : ℕ} → op ≡ field w 54 3 → truth (u8 op) ≡ true → Compares w
  compares e t = ground (arith, e, t, field-lt w 54 3)

module _ {w : ℕ} where
  pub eval_if_version_1-Total : (Compares w → If1 w) → Total w Any eval_if_version_1
  unfolding eval_if_version_1
  eval_if_version_1-Total n = bind w (bits w 54 3 refl) λ op o.
      branch w
        (λ t. bind w (bits w 39 8 refl) λ r e.
          bind w (operand-Total 39 r (n (compares w o t)).left e) λ a _.
            bind w (bits w 55 1 refl) λ imm f.
              bind w (eval_reg_or_data-Total 55 imm 31 f (n (compares w o t)).right refl refl)
                λ b _. done _)
        (λ _. done _)

  pub eval_if_version_2-Total : (Compares w → If2 w) → Total w Any eval_if_version_2
  unfolding eval_if_version_2
  eval_if_version_2-Total n = bind w (bits w 54 3 refl) λ op o.
      branch w
        (λ t. bind w (bits w 15 8 refl) λ r e.
          bind w (operand-Total 15 r (n (compares w o t)).left e) λ a _.
            bind w (bits w 7 8 refl)
              λ q f. bind w (operand-Total 7 q (n (compares w o t)).right f) λ b _. done _)
        (λ _. done _)

  pub eval_if_version_3-Total : (Compares w → If3 w) → Total w Any eval_if_version_3
  unfolding eval_if_version_3
  eval_if_version_3-Total n = bind w (bits w 54 3 refl) λ op o.
      branch w
        (λ t. bind w (bits w 47 8 refl) λ r e.
          bind w (operand-Total 47 r (n (compares w o t)).left e) λ a _.
            bind w (bits w 55 1 refl) λ imm f.
              bind w (eval_reg_or_data-Total 55 imm 15 f (n (compares w o t)).right refl refl)
                λ b _. done _)
        (λ _. done _)

  pub eval_if_version_4-Total : (Compares w → Register w 55 23) → Total w Any eval_if_version_4
  unfolding eval_if_version_4
  eval_if_version_4-Total n = bind w (bits w 54 3 refl) λ op o.
      branch w
        (λ t. bind w (bits w 51 4 refl) λ r e. bind w (nibble-Total 51 r e) λ a _.
          bind w (bits w 55 1 refl) λ imm f.
            bind w (eval_reg_or_data-Total 55 imm 31 f (n (compares w o t)) refl refl)
              λ b _. done _)
        (λ _. done _)

module _ {w : ℕ} (cond : ℕ) where
  pub eval_special_instruction-Total : Total w Any (eval_special_instruction cond)
  unfolding eval_special_instruction
  eval_special_instruction-Total = bind w (bits w 51 4 refl) λ kind _.
      branch w (λ _. done _)
        λ _.
          branch w (λ _. bind w (bits w 7 8 refl) λ line _. done _)
            λ _.
              branch w (λ _. done _)
                λ _.
                  branch w
                    (λ _. bind w (bits w 7 8 refl) λ line _. bind w (bits w 11 4 refl) λ level _.
                      branch w (λ _. bind w (write_sprm w 13 level) λ _ _. done _) (λ _. done _))
                    (λ _. done _)

  -- `return_values->command = c; return_values->data1 = vm_getbits(start, count); return cond;`
  one_field :
      (c : LinkCmd) (start count : ℕ)
      → in_range w start count ≡ true
      → Total w Any (do return_command c; d ← vm_getbits start count; return_data1 d; pure cond)
  one_field c start count p =
      bind w (link_command w c)
        λ _ _. bind w (bits w start count p) λ d _. bind w (link_data1 w d) λ _ _. done _

  -- The same with a second field.
  two_fields :
      (c : LinkCmd) (start count start' count' : ℕ)
      → in_range w start count ≡ true
      → in_range w start' count' ≡ true
      → Total w Any (do
        return_command c
        d ← vm_getbits start count
        return_data1 d
        e ← vm_getbits start' count'
        return_data2 e
        pure cond)
  two_fields c start count start' count' p q = bind w (link_command w c) λ _ _.
      bind w (bits w start count p) λ d _.
        bind w (link_data1 w d)
          λ _ _. bind w (bits w start' count' q) λ e _. bind w (link_data2 w e) λ _ _. done _

  pub eval_link_subins-Total : Total w Any (eval_link_subins cond)
  unfolding eval_link_subins
  eval_link_subins-Total = bind w (bits w 15 6 refl) λ button _.
      bind w (bits w 4 5 refl) λ linkop _.
        branch w (λ _. done _)
          (λ _. bind w (link_command w _) λ _ _. bind w (link_data1 w _) λ _ _. done _)

  pub eval_link_instruction-Total : Total w Any (eval_link_instruction cond)
  unfolding eval_link_instruction
  eval_link_instruction-Total = bind w (bits w 51 4 refl) λ op _.
      branch w (λ _. eval_link_subins-Total)
        λ _.
          branch w (λ _. one_field link_pgcn 14 15 refl)
            λ _.
              branch w (λ _. two_fields link_pttn 9 10 15 6 refl refl)
                λ _.
                  branch w (λ _. two_fields link_pgn 6 7 15 6 refl refl)
                    λ _. branch w (λ _. two_fields link_cn 7 8 15 6 refl refl) (λ _. done _)

  eval_jump_ss-Total : Total w Any (eval_jump_ss cond)
  unfolding eval_jump_ss
  eval_jump_ss-Total = bind w (bits w 23 2 refl) λ kind _.
      branch w (λ _. bind w (link_command w _) λ _ _. done _)
        λ _.
          branch w (λ _. one_field jump_ss_vmgm_menu 19 4 refl)
            λ _.
              branch w
                (λ _. bind w (link_command w _) λ _ _. bind w (bits w 31 8 refl) λ d _.
                  bind w (link_data1 w d) λ _ _. bind w (bits w 39 8 refl) λ e _.
                    bind w (link_data2 w e)
                      λ _ _. bind w (bits w 19 4 refl) λ f _. bind w (link_data3 w f) λ _ _. done _)
                λ _. branch w (λ _. one_field jump_ss_vmgm_pgc 46 15 refl) (λ _. done _)

  eval_call_ss-Total : Total w Any (eval_call_ss cond)
  unfolding eval_call_ss
  eval_call_ss-Total = bind w (bits w 23 2 refl) λ kind _.
      branch w (λ _. one_field call_ss_fp 31 8 refl)
        λ _.
          branch w (λ _. two_fields call_ss_vmgm_menu 19 4 31 8 refl refl)
            λ _.
              branch w (λ _. two_fields call_ss_vtsm 19 4 31 8 refl refl)
                λ _. branch w (λ _. two_fields call_ss_vmgm_pgc 46 15 31 8 refl refl) (λ _. done _)

  pub eval_jump_instruction-Total : Total w Any (eval_jump_instruction cond)
  unfolding eval_jump_instruction
  eval_jump_instruction-Total = bind w (bits w 51 4 refl) λ op _.
      branch w (λ _. bind w (link_command w _) λ _ _. done _)
        λ _.
          branch w (λ _. one_field jump_tt 22 7 refl)
            λ _.
              branch w (λ _. one_field jump_vts_tt 22 7 refl)
                λ _.
                  branch w (λ _. two_fields jump_vts_ptt 22 7 41 10 refl refl)
                    λ _.
                      branch w (λ _. eval_jump_ss-Total)
                        λ _. branch w (λ _. eval_call_ss-Total) (λ _. done _)
