-- ===== src/Decoder/Eval/Decode/Jumps.antt =====
-- `eval_jump_instruction` of vm/decoder.c decodes every jump.
use libdvdnav.Prelude.{ℕ, refl, arith}
use libdvdnav.Decoder.State.{
  no_link, Registers, exit, jump_tt, jump_vts_tt, jump_vts_ptt, jump_ss_fp, jump_ss_vmgm_menu,
  jump_ss_vtsm, jump_ss_vmgm_pgc, call_ss_fp, call_ss_vmgm_menu, call_ss_vtsm, call_ss_vmgm_pgc,
}
use libdvdnav.Decoder.Links.{eval_jump_instruction, eval_jump_ss, eval_call_ss}
use libdvdnav.Decoder.Links.Encoding.{
  Jump, leave, title, vts_title, vts_part, first_play, vmgm_menu, vts_menu, vmgm_pgc,
  call_first_play, call_vmgm_menu, call_vts_menu, call_vmgm_pgc, JumpFits, jump_word, jump_link,
}
use libdvdnav.Decoder.Eval.Decode.{
  Emits, seq, give, taken, skipped, read, command, first, second, third, one, two,
}

module _ {r : Registers} (cond : ℕ) where
  -- The word of a jump, decoded, gives its link.
  pub eval_jump-Emits :
      (j : Jump)
      → JumpFits j
      → Emits (jump_word j) r no_link cond (jump_link j) (eval_jump_instruction cond)
  unfolding eval_jump_instruction eval_jump_ss eval_call_ss
  eval_jump-Emits leave h =
      seq _ (read 51 4 1 refl refl) (taken _ refl (seq _ (command exit) (give cond)))
  eval_jump-Emits (title t) h =
      seq _ (read 51 4 2 refl (omega arith))
        (skipped _ refl (taken _ refl (one cond jump_tt 22 7 t refl (omega arith) (omega arith))))
  eval_jump-Emits (vts_title t) h = seq _ (read 51 4 3 refl (omega arith)) (
      skipped _ refl (
        skipped _ refl
          (taken _ refl (one cond jump_vts_tt 22 7 t refl (omega arith) (omega arith)))))
  eval_jump-Emits (vts_part t p) h = seq _ (read 51 4 5 refl (omega arith)) (
      skipped _ refl (
        skipped _ refl (
          skipped _ refl (
            taken _ refl
              (two cond jump_vts_ptt 22 7 t 41 10 p refl refl (omega arith) (omega arith))))))
  eval_jump-Emits first_play h = seq _ (read 51 4 6 refl (omega arith)) (
      skipped _ refl (
        skipped _ refl (
          skipped _ refl (
            skipped _ refl (
              taken _ refl (
                seq _ (read 23 2 0 refl (omega arith))
                  (taken _ refl (seq _ (command jump_ss_fp) (give cond)))))))))
  eval_jump-Emits (vmgm_menu m) h = seq _ (read 51 4 6 refl (omega arith)) (
      skipped _ refl (
        skipped _ refl (
          skipped _ refl (
            skipped _ refl (
              taken _ refl (
                seq _ (read 23 2 1 refl (omega arith)) (
                  skipped _ refl (
                    taken _ refl
                      (one cond jump_ss_vmgm_menu 19 4 m refl (omega arith) (omega arith))))))))))
  eval_jump-Emits (vts_menu v t m) h = seq _ (read 51 4 6 refl (omega arith)) (
      skipped _ refl (
        skipped _ refl (
          skipped _ refl (
            skipped _ refl (
              taken _ refl (
                seq _ (read 23 2 2 refl (omega arith)) (
                  skipped _ refl (
                    skipped _ refl (
                      taken _ refl (
                        seq _ (command jump_ss_vtsm) (
                          seq _ (read 31 8 v refl (omega arith)) (
                            seq _ (first v (omega arith)) (
                              seq _ (read 39 8 t refl (omega arith)) (
                                seq _ (second t (omega arith)) (
                                  seq _ (read 19 4 m refl (omega arith))
                                    (seq _ (third m (omega arith)) (give cond)))))))))))))))))
  eval_jump-Emits (vmgm_pgc p) h = seq _ (read 51 4 6 refl (omega arith)) (
      skipped _ refl (
        skipped _ refl (
          skipped _ refl (
            skipped _ refl (
              taken _ refl (
                seq _ (read 23 2 3 refl (omega arith)) (
                  skipped _ refl (
                    skipped _ refl (
                      skipped _ refl (
                        taken _ refl (
                          one cond jump_ss_vmgm_pgc 46 15 p refl (omega arith)
                            (omega arith))))))))))))
  eval_jump-Emits (call_first_play c) h = seq _ (read 51 4 8 refl (omega arith)) (
      skipped _ refl (
        skipped _ refl (
          skipped _ refl (
            skipped _ refl (
              skipped _ refl (
                taken _ refl (
                  seq _ (read 23 2 0 refl (omega arith)) (
                    taken _ refl
                      (one cond call_ss_fp 31 8 c refl (omega arith) (omega arith))))))))))
  eval_jump-Emits (call_vmgm_menu m c) h = seq _ (read 51 4 8 refl (omega arith)) (
      skipped _ refl (
        skipped _ refl (
          skipped _ refl (
            skipped _ refl (
              skipped _ refl (
                taken _ refl (
                  seq _ (read 23 2 1 refl (omega arith)) (
                    skipped _ refl (
                      taken _ refl (
                        two cond call_ss_vmgm_menu 19 4 m 31 8 c refl refl (omega arith)
                          (omega arith)))))))))))
  eval_jump-Emits (call_vts_menu m c) h = seq _ (read 51 4 8 refl (omega arith)) (
      skipped _ refl (
        skipped _ refl (
          skipped _ refl (
            skipped _ refl (
              skipped _ refl (
                taken _ refl (
                  seq _ (read 23 2 2 refl (omega arith)) (
                    skipped _ refl (
                      skipped _ refl (
                        taken _ refl (
                          two cond call_ss_vtsm 19 4 m 31 8 c refl refl (omega arith)
                            (omega arith))))))))))))
  eval_jump-Emits (call_vmgm_pgc p c) h = seq _ (read 51 4 8 refl (omega arith)) (
      skipped _ refl (
        skipped _ refl (
          skipped _ refl (
            skipped _ refl (
              skipped _ refl (
                taken _ refl (
                  seq _ (read 23 2 3 refl (omega arith)) (
                    skipped _ refl (
                      skipped _ refl (
                        skipped _ refl (
                          taken _ refl (
                            two cond call_ss_vmgm_pgc 46 15 p 31 8 c refl refl (omega arith)
                              (omega arith)))))))))))))
