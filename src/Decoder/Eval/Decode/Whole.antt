-- ===== src/Decoder/Eval/Decode/Whole.antt =====
-- From the bytes of an unconditional link or jump to what `eval_command` of vm/decoder.c returns.
use libdvdnav.Prelude.{ℕ, ◌^◌, ◌<◌, ◌≡◌, refl, field, arith}
use libdvdnav.Prelude.Int.{ℤ, negsuc}
use libdvdnav.Decoder.State.{no_link, Registers, Link, Machine, Result, ◌>>=◌}
use libdvdnav.Decoder.Compare.{eval_if_version_1, eval_if_version_2}
use libdvdnav.Decoder.Links.{eval_link_instruction, eval_jump_instruction}
use libdvdnav.Decoder.Links.Encoding.{
  Transfer, link_sub, pgcn, pttn, pgn, cn, Jump, leave, title, vts_title, vts_part, first_play,
  vmgm_menu, vts_menu, vmgm_pgc, call_first_play, call_vmgm_menu, call_vts_menu, call_vmgm_pgc,
  TransferFits, JumpFits, transfer_word, jump_word, transfer_link, jump_link,
}
use libdvdnav.Decoder.Safety.{Returns, returns}
use libdvdnav.Decoder.Eval.{load, link_result, dispatch, eval_command}
use libdvdnav.Decoder.Eval.Bytes.{bytes_of, assemble-bytes_of}
use libdvdnav.Decoder.Eval.Decode.{Holding, Emits, seq, give, taken, skipped, read}
use libdvdnav.Decoder.Eval.Decode.Jumps.{eval_jump-Emits}
use libdvdnav.Decoder.Eval.Decode.Transfers.{eval_link-Emits}

-- A command has been taken as a link: -1, with the link `l` and untouched registers.
pub record Linked (s : Machine) (l : Link) (result : ℤ) (s' : Machine) : Type 0 where
  pub minus_one : result ≡ negsuc 0
  pub linked : s'.return_values ≡ l
  pub kept : s'.registers ≡ s.registers

-- What fits a jump fits 64 bits, is of type 1, and has bit 60 and no comparison.
record IsHeader (w bit_60 : ℕ) : Type 0 where
  short : w < 2 ^ 64
  kind : field w 63 3 ≡ 1
  jump : field w 60 1 ≡ bit_60
  always : field w 54 3 ≡ 0

jump-IsHeader : (j : Jump) → JumpFits j → IsHeader (jump_word j) 1
jump-IsHeader leave h = omega arith
jump-IsHeader (title t) h = omega arith
jump-IsHeader (vts_title t) h = omega arith
jump-IsHeader (vts_part t p) h = omega arith
jump-IsHeader first_play h = omega arith
jump-IsHeader (vmgm_menu m) h = omega arith
jump-IsHeader (vts_menu v t m) h = omega arith
jump-IsHeader (vmgm_pgc p) h = omega arith
jump-IsHeader (call_first_play c) h = omega arith
jump-IsHeader (call_vmgm_menu m c) h = omega arith
jump-IsHeader (call_vts_menu m c) h = omega arith
jump-IsHeader (call_vmgm_pgc p c) h = omega arith

transfer-IsHeader : (t : Transfer) → TransferFits t → IsHeader (transfer_word t) 0
transfer-IsHeader (link_sub k b) h = omega arith
transfer-IsHeader (pgcn n) h = omega arith
transfer-IsHeader (pttn n b) h = omega arith
transfer-IsHeader (pgn n b) h = omega arith
transfer-IsHeader (cn n b) h = omega arith

module _ {w : ℕ} {r : Registers} where
  jump_dispatch :
      {l : Link}
      → IsHeader w 1
      → Emits w r no_link 1 l (eval_jump_instruction 1)
      → Emits w r no_link (negsuc 0) l (dispatch 1)
  unfolding dispatch eval_if_version_2 link_result
  jump_dispatch h e = skipped _ refl (
      taken _ refl (
        seq _ (read 60 1 1 refl h.jump) (
          taken _ refl (
            seq _ (seq _ (read 54 3 0 refl h.always) (skipped _ refl (give 1)))
              (seq _ e (give _))))))

  link_dispatch :
      {l : Link}
      → IsHeader w 0
      → Emits w r no_link 1 l (eval_link_instruction 1)
      → Emits w r no_link (negsuc 0) l (dispatch 1)
  unfolding dispatch eval_if_version_1 link_result
  link_dispatch h e = skipped _ refl (
      taken _ refl (
        seq _ (read 60 1 0 refl h.jump) (
          skipped _ refl (
            seq _ (seq _ (read 54 3 0 refl h.always) (skipped _ refl (give 1)))
              (seq _ e (give _))))))

Returns-Linked :
    {w : ℕ} {l : Link} (s : Machine) (r : Result ℤ)
    → Returns (λ x s'. (x ≡ negsuc 0) × Holding w s.registers l s') r
    → Returns (Linked s l) r
Returns-Linked s r (returns h) =
    returns (record { minus_one = h.0; linked = h.1.so_far; kept = h.1.kept })

-- The rest of `eval_command`, once the word is loaded.
run_word :
    {w b : ℕ} {l : Link} (s : Machine)
    → IsHeader w b
    → Emits w s.registers no_link (negsuc 0) l (dispatch 1)
    → Returns (Linked s l) (eval_command (bytes_of w) s)
unfolding eval_command load ◌>>=◌
run_word {w} s h e = Returns-Linked s _ (
    (seq dispatch (read 63 3 1 refl h.kind) e).run _
      (record { word = assemble-bytes_of w h.short; kept = refl; so_far = refl }))

-- `eval_command`, run on the eight bytes of any jump whose operands fit their fields, returns -1
-- with the link that the jump stands for, and leaves the registers as they were.
pub decode_jump :
    (j : Jump) (s : Machine)
    → JumpFits j
    → Returns (Linked s (jump_link j)) (eval_command (bytes_of (jump_word j)) s)
decode_jump j s h =
    run_word s (jump-IsHeader j h) (jump_dispatch (jump-IsHeader j h) (eval_jump-Emits 1 j h))

-- The same for the links to a program chain, part, program or cell and for those by a
-- sub-instruction, with their buttons.
pub decode_transfer :
    (t : Transfer) (s : Machine)
    → TransferFits t
    → Returns (Linked s (transfer_link t)) (eval_command (bytes_of (transfer_word t)) s)
decode_transfer t s h =
    run_word s (transfer-IsHeader t h)
      (link_dispatch (transfer-IsHeader t h) (eval_link-Emits 1 t h))
