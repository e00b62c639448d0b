-- ===== src/Decoder/Links/Encoding.antt =====
-- The link and jump instructions as data, and the instruction words that stand for them.
use libdvdnav.Prelude.{ℕ, ◌+◌, ◌*◌, ◌^◌, ◌≤◌, ◌<◌}
use libdvdnav.Decoder.State.{
  LinkCmd, link_pgcn, link_pttn, link_pgn, link_cn, exit, jump_tt, jump_vts_tt, jump_vts_ptt,
  jump_ss_fp, jump_ss_vmgm_menu, jump_ss_vtsm, jump_ss_vmgm_pgc, call_ss_fp, call_ss_vmgm_menu,
  call_ss_vtsm, call_ss_vmgm_pgc, Link,
}
use libdvdnav.Decoder.Links.{sub_link}

-- The unconditional transfers of control, with their operands: a link takes a button, a call the
-- cell to resume at.
pub data Transfer : Type 0 where
  link_sub : (code button : ℕ) → Transfer
  pgcn : (number : ℕ) → Transfer
  pttn pgn cn : (number button : ℕ) → Transfer

pub data Jump : Type 0 where
  leave : Jump
  title vts_title : (ttn : ℕ) → Jump
  vts_part : (ttn part : ℕ) → Jump
  first_play : Jump
  vmgm_menu : (menu : ℕ) → Jump
  vts_menu : (vts ttn menu : ℕ) → Jump
  vmgm_pgc : (pgc : ℕ) → Jump
  call_first_play : (cell : ℕ) → Jump
  call_vmgm_menu call_vts_menu : (menu cell : ℕ) → Jump
  call_vmgm_pgc : (pgc cell : ℕ) → Jump

-- The operands fit their fields.
abbrev pub TransferFits : Transfer → Type 0
TransferFits (link_sub k b) = (k ≤ 16) × (b < 64)
TransferFits (pgcn n) = n < 2 ^ 15
TransferFits (pttn n b) = (n < 2 ^ 10) × (b < 64)
TransferFits (pgn n b) = (n < 2 ^ 7) × (b < 64)
TransferFits (cn n b) = (n < 2 ^ 8) × (b < 64)

abbrev pub JumpFits : Jump → Type 0
JumpFits (title t) = t < 2 ^ 7
JumpFits (vts_title t) = t < 2 ^ 7
JumpFits (vts_part t p) = (t < 2 ^ 7) × (p < 2 ^ 10)
JumpFits (vmgm_menu m) = m < 16
JumpFits (vts_menu v t m) = (v < 256) × (t < 256) × (m < 16)
JumpFits (vmgm_pgc p) = p < 2 ^ 15
JumpFits (call_first_play c) = c < 256
JumpFits (call_vmgm_menu m c) = (m < 16) × (c < 256)
JumpFits (call_vts_menu m c) = (m < 16) × (c < 256)
JumpFits (call_vmgm_pgc p c) = (p < 2 ^ 15) × (c < 256)
JumpFits _ = Unit

-- The instruction words: the type in the upper three bits, the kind from bit 48 on.
abbrev pub transfer_word : Transfer → ℕ
transfer_word (link_sub k b) = 2 ^ 61 + 1 * 2 ^ 48 + b * 2 ^ 10 + k
transfer_word (pgcn n) = 2 ^ 61 + 4 * 2 ^ 48 + n
transfer_word (pttn n b) = 2 ^ 61 + 5 * 2 ^ 48 + b * 2 ^ 10 + n
transfer_word (pgn n b) = 2 ^ 61 + 6 * 2 ^ 48 + b * 2 ^ 10 + n
transfer_word (cn n b) = 2 ^ 61 + 7 * 2 ^ 48 + b * 2 ^ 10 + n

abbrev pub jump_word : Jump → ℕ
jump_word leave = 3 * 2 ^ 60 + 1 * 2 ^ 48
jump_word (title t) = 3 * 2 ^ 60 + 2 * 2 ^ 48 + t * 2 ^ 16
jump_word (vts_title t) = 3 * 2 ^ 60 + 3 * 2 ^ 48 + t * 2 ^ 16
jump_word (vts_part t p) = 3 * 2 ^ 60 + 5 * 2 ^ 48 + p * 2 ^ 32 + t * 2 ^ 16
jump_word first_play = 3 * 2 ^ 60 + 6 * 2 ^ 48
jump_word (vmgm_menu m) = 3 * 2 ^ 60 + 6 * 2 ^ 48 + 1 * 2 ^ 22 + m * 2 ^ 16
jump_word (vts_menu v t m) =
    3 * 2 ^ 60 + 6 * 2 ^ 48 + t * 2 ^ 32 + v * 2 ^ 24 + 2 * 2 ^ 22 + m * 2 ^ 16
jump_word (vmgm_pgc p) = 3 * 2 ^ 60 + 6 * 2 ^ 48 + p * 2 ^ 32 + 3 * 2 ^ 22
jump_word (call_first_play c) = 3 * 2 ^ 60 + 8 * 2 ^ 48 + c * 2 ^ 24
jump_word (call_vmgm_menu m c) = 3 * 2 ^ 60 + 8 * 2 ^ 48 + c * 2 ^ 24 + 1 * 2 ^ 22 + m * 2 ^ 16
jump_word (call_vts_menu m c) = 3 * 2 ^ 60 + 8 * 2 ^ 48 + c * 2 ^ 24 + 2 * 2 ^ 22 + m * 2 ^ 16
jump_word (call_vmgm_pgc p c) = 3 * 2 ^ 60 + 8 * 2 ^ 48 + p * 2 ^ 32 + c * 2 ^ 24 + 3 * 2 ^ 22

abbrev link : LinkCmd → ℕ → ℕ → ℕ → Link
link c a b d = record { command = c; data1 = a; data2 = b; data3 = d }

-- The links that they stand for.
abbrev pub transfer_link : Transfer → Link
transfer_link (link_sub k b) = link (sub_link k) b 0 0
transfer_link (pgcn n) = link link_pgcn n 0 0
transfer_link (pttn n b) = link link_pttn n b 0
transfer_link (pgn n b) = link link_pgn n b 0
transfer_link (cn n b) = link link_cn n b 0

abbrev pub jump_link : Jump → Link
jump_link leave = link exit 0 0 0
jump_link (title t) = link jump_tt t 0 0
jump_link (vts_title t) = link jump_vts_tt t 0 0
jump_link (vts_part t p) = link jump_vts_ptt t p 0
jump_link first_play = link jump_ss_fp 0 0 0
jump_link (vmgm_menu m) = link jump_ss_vmgm_menu m 0 0
jump_link (vts_menu v t m) = link jump_ss_vtsm v t m
jump_link (vmgm_pgc p) = link jump_ss_vmgm_pgc p 0 0
jump_link (call_first_play c) = link call_ss_fp c 0 0
jump_link (call_vmgm_menu m c) = link call_ss_vmgm_menu m c 0
jump_link (call_vts_menu m c) = link call_ss_vtsm m c 0
jump_link (call_vmgm_pgc p c) = link call_ss_vmgm_pgc p c 0
