-- ===== src/Decoder/Eval/Decode/Transfers.antt =====
-- `eval_link_instruction` of vm/decoder.c decodes every link.
use native.Mathlib.Nat.{mod-eq_of_lt}
use libdvdnav.Prelude.{le→ltb, ℕ, ◌^◌, refl, arith}
use libdvdnav.Decoder.State.{no_link, Registers, link_pgcn, link_pttn, link_pgn, link_cn}
use libdvdnav.Decoder.Links.{sub_link, eval_link_instruction, eval_link_subins}
use libdvdnav.Decoder.Links.Encoding.{
  Transfer, link_sub, pgcn, pttn, pgn, cn, TransferFits, transfer_word, transfer_link,
}
use libdvdnav.Decoder.Eval.Decode.{Emits, seq, give, taken, skipped, read, command, first, one, two}

module _ {r : Registers} (cond : ℕ) where
  -- The word of a link, decoded, gives that link.
  pub eval_link-Emits :
      (t : Transfer)
      → TransferFits t
      → Emits (transfer_word t) r no_link cond (transfer_link t) (eval_link_instruction cond)
  unfolding eval_link_instruction eval_link_subins
  eval_link-Emits (link_sub k b) h = seq _ (read 51 4 1 refl (omega arith)) (
      taken _ refl (
        seq _ (read 15 6 b refl (omega arith)) (
          seq _ (read 4 5 k refl (omega arith)) (
            rw
              (
                mod-eq_of_lt {n = k} {m = 2 ^ 8} (omega arith),
                mod-eq_of_lt {n = b} {m = 2 ^ 16} (omega arith),
              )
              (skipped _ (le→ltb 16 k (h.0))
                (seq _ (command (sub_link k)) (seq _ (first b (omega arith)) (give cond))))))))
  eval_link-Emits (pgcn n) h =
      seq _ (read 51 4 4 refl (omega arith)) (
        skipped _ refl (taken _ refl (one cond link_pgcn 14 15 n refl (omega arith) (omega arith))))
  eval_link-Emits (pttn n b) h = seq _ (read 51 4 5 refl (omega arith)) (
      skipped _ refl (
        skipped _ refl
          (taken _ refl (two cond link_pttn 9 10 n 15 6 b refl refl (omega arith) (omega arith)))))
  eval_link-Emits (pgn n b) h = seq _ (read 51 4 6 refl (omega arith)) (
      skipped _ refl (
        skipped _ refl (
          skipped _ refl
            (taken _ refl (two cond link_pgn 6 7 n 15 6 b refl refl (omega arith) (omega arith))))))
  eval_link-Emits (cn n b) h = seq _ (read 51 4 7 refl (omega arith)) (
      skipped _ refl (
        skipped _ refl (
          skipped _ refl (
            skipped _ refl (
              taken _ refl
                (two cond link_cn 7 8 n 15 6 b refl refl (omega arith) (omega arith)))))))
