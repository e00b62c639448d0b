-- ===== src/Player/Packet.antt =====
-- dvdnav_decode_packet of dvdnav.c: the navigation packet of a block.
use libdvdnav.Prelude.{
  Bool, true, false, if◌then◌else◌, ◌==◌, ◌!=◌, truth, ℕ, zero, suc, ◌+◌, shl, bit_and, bit_or, [],
  ◌∷◌, get_elem?,
}
use libdvdnav.Prelude.Program.{pure, element, when◌then◌else◌, ◌>>=◌, ◌>>◌}
use libdvdnav.Player.State.{Bytes, P, Libdvdread, update}

-- `p + n`.
abbrev pub skip : ℕ → Bytes → Bytes
skip zero p = p
skip (suc n) [] = []
skip (suc n) (b ∷ p) = skip n p

-- `p[i]`, and a fault outside the block.
unfoldable pub byte : Bytes → ℕ → P ℕ
unfolding element
byte p i = element (get_elem? p i)

-- Two bytes, the high one first.
unfoldable pub word : Bytes → ℕ → P ℕ
unfolding ◌>>=◌ byte
word p i = do high ← byte p i; low ← byte p (suc i); pure (bit_or (shl high 8) low)

unfoldable pub skip_pack : Bytes → P Bytes
unfolding ◌>>=◌ byte
skip_pack p = do
  code ← byte p 3
  when code == 0xba
      then (do
        version ← byte p 4
        when bit_and version 0x40 == 0
            then pure (skip 12 p)
            else (do stuffing ← byte p 0xd; pure (skip (14 + bit_and stuffing 0x07) p)))
      else pure p

unfoldable pub skip_system : Bytes → P Bytes
unfolding ◌>>=◌ byte word
skip_system p = do
  code ← byte p 3
  when code == 0xbb then (do length ← word p 4; pure (skip (6 + length) p)) else pure p

-- The start code of a packet is missing.
unfoldable pub demux_error : Bytes → P Bool
unfolding ◌>>=◌ byte
demux_error p = do
  b0 ← byte p 0
  when truth b0
      then pure true
      else (do b1 ← byte p 1; when truth b1 then pure true else (do b2 ← byte p 2; pure (b2 != 1)))

module _ (lib : Libdvdread) where
  unfoldable pub read_pci : Bytes → P (Unit {0})
  unfolding update
  read_pci p = update (λ this. record this { pci = lib.nav_read_pci p })

  unfoldable pub read_dsi : Bytes → P (Unit {0})
  unfolding update
  read_dsi p = update (λ this. record this { dsi = lib.nav_read_dsi p })

  -- The private stream of a navigation packet, of `length` bytes from `p` on.
  unfoldable pub decode_stream : Bytes → ℕ → P Bool
  unfolding ◌>>=◌ byte read_pci read_dsi
  decode_stream p length = do
    substream ← byte p 0
    when substream == 0x00 then read_pci (skip 1 p) else pure tt
    let p : Bytes = skip length p
    next ← byte p 6
    when next == 0x01 then read_dsi (skip 1 (skip 6 p)) else pure tt
    pure true

  -- Is it a navigation packet? If so, `pci` and `dsi` are read.
  unfoldable pub dvdnav_decode_packet : Bytes → P Bool
  unfolding ◌>>=◌ byte word skip_pack skip_system demux_error decode_stream
  dvdnav_decode_packet block = do
    p ← skip_pack block
    p ← skip_system p
    wrong ← demux_error p
    when wrong then pure false else (do
      length ← word p 4
      stream ← byte p 3
      when stream == 0xbf then decode_stream (skip 6 p) length else pure false)
