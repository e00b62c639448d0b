-- ===== src/Vm/Streams/Bounds.antt =====
-- The range of the stream numbers of vm/vm.c.
use libdvdnav.Prelude.{
  true, false, if◌then◌else◌, Bool-cases, ◌/◌, ◌%◌, ◌*◌, ◌^◌, ap, List, ltb, truth, ℕ, ◌<◌, ◌≤◌,
  ◌≡◌, ◌⊎◌, inl, inr, refl, arith, some, get_elem?, length, get_elem?_of_lt, bit_and, shr,
  bit_and_mask, bit_and_bit, ltb→lt,
}
use libdvdnav.Prelude.Int.{ℤ, pos, negsuc}
use libdvdnav.Prelude.Program.{value, ◌>>=◌}
use libdvdnav.Vm.Disc.{Pgc}
use libdvdnav.Vm.State.{Vm, Domain, vts_title, get_state, current_pgc}
use libdvdnav.Vm.Sets.{same_domain}
use libdvdnav.Vm.Streams.{in_menu, logical, audio_of, vm_get_audio_stream}

-- A stream below `bound`, or -1 in a title.
unfoldable pub InRange : ℕ → Domain → ℤ → Type 0
InRange bound d (pos n) = n < bound
InRange bound d (negsuc n) = (n ≡ 0) × (same_domain d vts_title ≡ true)

-- There is no stream: -1 in a title, and elsewhere 0.
unfoldable pub Missing : Domain → ℤ → Type 0
Missing d stream =
    ((same_domain d vts_title ≡ true) × (stream ≡ negsuc 0))
    ⊎ ((same_domain d vts_title ≡ false) × (stream ≡ pos 0))

-- Bit 15 of the control word tells that there is a stream, and bits 8 to 10 are its number.
unfoldable pub StreamOf : Domain → (control : ℕ) → ℤ → Type 0
StreamOf d control stream =
    ((control / 2 ^ 15 % 2 ≡ 1) × (stream ≡ pos (control / 2 ^ 8 % 2 ^ 3)))
    ⊎ ((control / 2 ^ 15 % 2 ≡ 0) × Missing d stream)

-- The stream of entry `n` of the table. There are eight, and a number beyond them has no stream.
unfoldable pub AudioStream : Domain → List ℕ → (n : ℕ) → ℤ → Type 0
AudioStream d controls n stream =
    ((8 ≤ n) × Missing d stream)
    ⊎ ((control : ℕ) × (n < 8) × (get_elem? controls n ≡ some control) × StreamOf d control stream)

-- The bit that `1<<15` tests.
bit_15 : (control : ℕ) → bit_and control 0x8000 ≡ control / 2 ^ 15 % 2 * 2 ^ 15
bit_15 control = bit_and_bit 15 control

in_menu-Missing : (d : Domain) → Missing d (in_menu d (negsuc 0))
unfolding Missing
in_menu-Missing d = elim (Bool-cases (same_domain d vts_title)) [
  | inl title ↦ inl (title, rw title refl)
  | inr menu ↦ inr (menu, rw menu refl)
]

of_control-StreamOf : (d : Domain) (control : ℕ) → StreamOf d control (in_menu d (audio_of control))
unfolding StreamOf audio_of
of_control-StreamOf d control = elim (Bool-cases (truth (bit_and control 0x8000))) [
  | inl there ↦
      inl (
        ground (arith, there, bit_15 control),
        rw (there) (ap pos (bit_and_mask 3 (shr control 8))),
      )
  | inr missing ↦ inr (ground (arith, missing, bit_15 control), rw (missing) (in_menu-Missing d))
]

in_menu-range : (d : Domain) (stream : ℤ) → Missing d stream → InRange 8 d stream
unfolding InRange Missing
in_menu-range d stream (inl (title, e)) = rw (e) (refl, title)
in_menu-range d stream (inr (menu, e)) = rw (e) (omega arith)

of_control :
    (d : Domain) (control : ℕ) (stream : ℤ) → StreamOf d control stream → InRange 8 d stream
unfolding InRange StreamOf
of_control d control stream (inl (there, e)) = rw (e) (omega arith)
of_control d control stream (inr (missing, m)) = in_menu-range d stream m

-- A logical audio stream, which outside of titles is always 0, maps to the number in bits 8 to 10 of
-- its control word if bit 15 says that there is one. Else, and beyond the eight words, there is no
-- stream, -1 in a title and 0 elsewhere. So the result is from 0 to 7 or, in a title only, -1. Looking
-- it up changes nothing.
pub vm_get_audio_stream_lem :
    (vm : Vm) (p n : ℕ) (pgc : Pgc)
    → vm.state.pgc ≡ some p
    → get_elem? vm.pgcs p ≡ some pgc
    → 8 ≤ length pgc.audio_control
    → (stream : ℤ) × (vm_get_audio_stream n vm ≡ value stream vm)
      × InRange 8 vm.state.domain stream
      × AudioStream vm.state.domain pgc.audio_control
          (if same_domain vm.state.domain vts_title then n else 0)
          stream
unfolding vm_get_audio_stream AudioStream get_state current_pgc ◌>>=◌
vm_get_audio_stream_lem vm p n pgc e at full =
    let d = vm.state.domain in
    elim (Bool-cases (ltb (logical d n) 8)) [
      | inr other ↦ (
        in_menu d (negsuc 0),
        rw (e, at, other) refl,
        in_menu-range d _ (in_menu-Missing d),
        inl (ground (arith, other), in_menu-Missing d),
      )
      | inl valid ↦
          let (control, here) =
            get_elem?_of_lt pgc.audio_control (logical d n) (omega (arith, ltb→lt _ 8 valid)) in
          (
            in_menu d (audio_of control),
            rw (e, at, valid, here) refl,
            of_control d control _ (of_control-StreamOf d control),
            inr (control, ltb→lt _ 8 valid, here, of_control-StreamOf d control),
          )
    ]
