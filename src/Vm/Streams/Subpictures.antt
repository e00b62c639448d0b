-- ===== src/Vm/Streams/Subpictures.antt =====
-- The subpicture streams of vm/vm.c: the logical stream for the shape of the picture.
use libdvdnav.Prelude.{
  true, Bool-cases, not, ◌||◌, ◌==◌, ltb, ltb→lt, truth, ℕ, ◌*◌, ◌^◌, ◌<◌, ◌≤◌, ◌≡◌, ◌⊎◌, inl, inr,
  refl, arith, some, get_elem?, get_elem?_of_lt, get_elem?-set_self, lt_of_get_elem?, set, length,
  u16, bit_and, bit_or, shr, bit_and_mask,
}
use libdvdnav.Prelude.Int.{ℤ, pos, negsuc}
use libdvdnav.Prelude.Program.{value, ◌>>=◌}
use libdvdnav.Vm.Disc.{Pgc, VideoAttr}
use libdvdnav.Vm.State.{Vm, Domain, vts_title, get_state, put_state, sprm, put_sprm, current_pgc}
use libdvdnav.Vm.Sets.{same_domain}
use libdvdnav.Vm.Streams.{
  in_menu, logical, subp_of, vm_get_video_attr, vm_get_video_aspect, vm_get_subp_stream,
}
use libdvdnav.Vm.Streams.Bounds.{InRange}

-- The machine with the aspect ratio in bits 10 and 11 of register 14.
abbrev pub with_aspect : Vm → (old aspect : ℕ) → Vm
with_aspect vm old aspect =
    let s = vm.state in
    let r = s.registers in
    let cleared = u16 (bit_and old 0xf3ff) in
    record vm {
      state = record s {
        registers = record r {
          sprm = set (set r.sprm 14 cleared) 14 (u16 (bit_or cleared (aspect * 2 ^ 10)));
        };
      };
    }

aspect_lem :
    (vm : Vm) (attr : VideoAttr) (old : ℕ)
    → vm_get_video_attr vm ≡ value attr vm
    → (attr.display_aspect_ratio == 0 || attr.display_aspect_ratio == 3) ≡ true
    → get_elem? vm.state.registers.sprm 14 ≡ some old
    → vm_get_video_aspect vm
      ≡ value attr.display_aspect_ratio (with_aspect vm old attr.display_aspect_ratio)
unfolding vm_get_video_aspect sprm put_sprm get_state put_state ◌>>=◌
aspect_lem vm attr old video shape here =
    let again =
      get_elem?-set_self vm.state.registers.sprm 14 (u16 (bit_and old 0xf3ff))
        (lt_of_get_elem? vm.state.registers.sprm 14 old here) in
    rw (video, shape, here, again) refl

no_stream : (d : Domain) → InRange 32 d (in_menu d (negsuc 0))
unfolding InRange
no_stream d = elim (Bool-cases (same_domain d vts_title)) [
  | inl title ↦ rw title (refl, title)
  | inr menu ↦ rw menu (omega arith)
]

five_bits : (n : ℕ) → bit_and n 0x1f < 32
five_bits n = ground (arith, bit_and_mask 5 n)

subp_of-cases :
    (aspect mode control : ℕ)
    → ((k : ℕ) × (k < 32) × (subp_of aspect mode control ≡ pos k))
      ⊎ (subp_of aspect mode control ≡ negsuc 0)
unfolding subp_of
subp_of-cases aspect mode control = elim (Bool-cases (not (truth (bit_and control 0x80000000)))) [
  | inl missing ↦ inr (rw missing refl)
  | inr there ↦ elim (Bool-cases (aspect == 0)) [
    | inl narrow ↦
        inl (bit_and (shr control 24) 0x1f, five_bits (shr control 24), rw (there, narrow) refl)
    | inr other ↦ elim (Bool-cases (aspect == 3)) [
      | inr unknown ↦ inr (rw (there, other, unknown) refl)
      | inl wide ↦ elim (Bool-cases (mode == 0)) [
        | inl full ↦ inl (
          bit_and (shr control 16) 0x1f,
          five_bits (shr control 16),
          rw (there, other, wide, full) refl,
        )
        | inr not_full ↦ elim (Bool-cases (mode == 1)) [
          | inl letterbox ↦ inl (
            bit_and (shr control 8) 0x1f,
            five_bits (shr control 8),
            rw (there, other, wide, not_full, letterbox) refl,
          )
          | inr not_letterbox ↦ elim (Bool-cases (mode == 2)) [
            | inl pan ↦ inl (
              bit_and control 0x1f,
              five_bits control,
              rw (there, other, wide, not_full, not_letterbox, pan) refl,
            )
            | inr no_mode ↦ inr (rw (there, other, wide, not_full, not_letterbox, no_mode) refl)
          ]
        ]
      ]
    ]
  ]
]

in_range :
    (d : Domain) (aspect mode control : ℕ) → InRange 32 d (in_menu d (subp_of aspect mode control))
unfolding InRange
in_range d aspect mode control = elim (subp_of-cases aspect mode control) [
  | inl (k, small, e) ↦ rw e small
  | inr e ↦ rw e (no_stream d)
]

-- Every logical subpicture stream maps to a physical one from 0 to 31 or, in a title only, to none;
-- looking it up stores the aspect ratio of the picture, 4:3 or 16:9, in register 14.
pub vm_get_subp_stream_lem :
    (vm : Vm) (p n mode old : ℕ) (pgc : Pgc) (attr : VideoAttr)
    → vm.state.pgc ≡ some p
    → get_elem? vm.pgcs p ≡ some pgc
    → 32 ≤ length pgc.subp_control
    → vm_get_video_attr vm ≡ value attr vm
    → (attr.display_aspect_ratio == 0 || attr.display_aspect_ratio == 3) ≡ true
    → get_elem? vm.state.registers.sprm 14 ≡ some old
    → (stream : ℤ) × (vm_get_subp_stream n mode vm
        ≡ value stream (with_aspect vm old attr.display_aspect_ratio))
      × InRange 32 vm.state.domain stream
unfolding vm_get_subp_stream get_state current_pgc ◌>>=◌
vm_get_subp_stream_lem vm p n mode old pgc attr e at full video shape here =
    let d = vm.state.domain in
    let aspect = aspect_lem vm attr old video shape here in
    elim (Bool-cases (ltb (logical d n) 32)) [
      | inr other ↦ (in_menu d (negsuc 0), rw (aspect, e, at, other) refl, no_stream d)
      | inl valid ↦
          let (control, there) =
            get_elem?_of_lt pgc.subp_control (logical d n) (omega (arith, ltb→lt _ 32 valid)) in
          (
            in_menu d (subp_of attr.display_aspect_ratio mode control),
            rw (aspect, e, at, valid, there) refl,
            in_range d attr.display_aspect_ratio mode control,
          )
    ]
