-- ===== src/Player/Pack.antt =====
-- dvdnav_decode_packet of dvdnav.c on a block with a navigation packet.
use libdvdnav.Prelude.{
  true, ℕ, zero, suc, ◌+◌, ◌/◌, ◌%◌, ◌<◌, ◌≡◌, refl, ap, sym, ◌∙◌, arith, bit_and, bit_or, shl,
  bit_and_mask, bit_or_shifted, [], ◌∷◌, ◌++◌, length,
}
use libdvdnav.Prelude.Program.{value, ◌>>=◌}
use libdvdnav.Player.State.{Bytes, Dvdnav, Libdvdread, update}
use libdvdnav.Player.Packet.{
  skip, byte, word, skip_pack, skip_system, demux_error, read_pci, read_dsi, decode_stream,
  dvdnav_decode_packet,
}

abbrev pub high_byte : ℕ → ℕ
high_byte n = n / 256

abbrev pub low_byte : ℕ → ℕ
low_byte n = n % 256

-- The packet of the DSI, with any length `n`.
abbrev pub dsi_packet : (n : ℕ) → Bytes → Bytes
dsi_packet n dsi = 0 ∷ 0 ∷ 1 ∷ 0xbf ∷ high_byte n ∷ low_byte n ∷ 1 ∷ dsi

-- The packet of the PCI before the rest of the block.
abbrev pub pci_packet : Bytes → Bytes → Bytes
pci_packet pci rest =
    0 ∷ 0 ∷ 1 ∷ 0xbf ∷ high_byte (length pci + 1) ∷ low_byte (length pci + 1) ∷ 0 ∷ (pci ++ rest)

-- A system header before the rest of the block.
abbrev pub system_header : Bytes → Bytes → Bytes
system_header body rest =
    0 ∷ 0 ∷ 1 ∷ 0xbb ∷ high_byte (length body) ∷ low_byte (length body) ∷ (body ++ rest)

-- An MPEG-2 pack header with a clock and stuffing before the rest of the block.
abbrev pub pack_header : (clock : ℕ → ℕ) → Bytes → Bytes → Bytes
pack_header clock stuffing rest =
    0
    ∷ 0
    ∷ 1
    ∷ 0xba
    ∷ 0x44
    ∷ clock 0
    ∷ clock 1
    ∷ clock 2
    ∷ clock 3
    ∷ clock 4
    ∷ clock 5
    ∷ clock 6
    ∷ clock 7
    ∷ (0xf8 + length stuffing)
    ∷ (stuffing ++ rest)

skip-append : (xs ys : Bytes) (n : ℕ) → n ≡ length xs → skip n (xs ++ ys) ≡ ys
skip-append [] ys zero e = refl
skip-append [] ys (suc n) e = absurd (omega (arith, e))
skip-append (x ∷ xs) ys zero e = absurd (omega (arith, e))
skip-append (x ∷ xs) ys (suc n) e = skip-append xs ys n (omega (arith, e))

skip_nil : (n : ℕ) → skip n [] ≡ []
skip_nil zero = refl
skip_nil (suc n) = refl

-- `n + k` bytes, of which `n` are written out.
skip_past : (n k : ℕ) (p : Bytes) → skip (n + k) p ≡ skip k (skip n p)
skip_past zero k p = ap (λ x. skip x p) (omega arith)
skip_past (suc n) k [] = ap (λ i. skip i []) next ∙ sym (skip_nil k)
  where
    next : suc n + k ≡ suc (n + k)
    next = omega arith
skip_past (suc n) k (b ∷ p) =
    let next : suc n + k ≡ suc (n + k) = omega arith in
    ap (λ i. skip i (b ∷ p)) next ∙ skip_past n k p

two_bytes : (n : ℕ) → bit_or (shl (high_byte n) 8) (low_byte n) ≡ n
two_bytes n = bit_or_shifted 8 (n / 256) (n % 256) (omega arith) ∙ omega arith

stuffing_bits : (n : ℕ) → n < 8 → bit_and (0xf8 + n) 0x07 ≡ n
stuffing_bits n small = bit_and_mask 3 (0xf8 + n) ∙ omega arith

module _ (lib : Libdvdread) (this : Dvdnav) where
  -- A block with a navigation packet is taken for one, and both of its parts are read.
  pub dvdnav_decode_packet_lem :
      (clock : ℕ → ℕ) (stuffing body pci dsi : Bytes) (n : ℕ)
      → length stuffing < 8
      → dvdnav_decode_packet lib
          (pack_header clock stuffing (system_header body (pci_packet pci (dsi_packet n dsi))))
          this
        ≡ value true (record this {
          pci = lib.nav_read_pci (pci ++ dsi_packet n dsi);
          dsi = lib.nav_read_dsi dsi;
        })
  unfolding dvdnav_decode_packet skip_pack skip_system demux_error word byte decode_stream read_pci
      read_dsi update ◌>>=◌
  dvdnav_decode_packet_lem clock stuffing body pci dsi n small =
      let last : Bytes = dsi_packet n dsi in
      let packets : Bytes = pci_packet pci last in
      let system : Bytes = system_header body packets in
      rw
        (
          stuffing_bits (length stuffing) small,
          skip_past 14 (length stuffing) (pack_header clock stuffing system),
          skip-append stuffing system (length stuffing) refl,
          two_bytes (length body),
          skip_past 6 (length body) system,
          skip-append body packets (length body) refl,
          two_bytes (length pci + 1),
          skip-append (0 ∷ pci) last (length pci + 1) (omega arith),
        )
        refl
