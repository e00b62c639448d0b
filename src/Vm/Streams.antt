-- ===== src/Vm/Streams.antt =====
-- The streams, the angles and the picture of vm/vm.c.
pub mod Bounds
pub mod Subpictures
use libdvdnav.Prelude.{
  Bool, true, false, if◌then◌else◌, not, ◌&&◌, ◌||◌, ◌==◌, ◌!=◌, ltb, leb, truth, ℕ, zero, suc, ◌+◌,
  ◌-◌, ◌*◌, ◌/◌, ◌^◌, Option, none, some, List, [], ◌∷◌, length, get_elem?, bit_and, bit_or, shr,
}
use libdvdnav.Prelude.Int.{ℤ, pos, negsuc}
use libdvdnav.Prelude.Program.{
  value, pure, abort, element, get, put, assert, when◌then◌else◌, ◌>>=◌, ◌>>◌,
}
use libdvdnav.Vm.Disc.{Ifo, Pgc, TitleInfo, VideoAttr}
use libdvdnav.Vm.State.{
  V, Vm, State, Domain, vts_title, vts_menu, vmgm, first_play, get_state, get_vmgi, get_vtsi,
  current_pgc, sprm, put_sprm, agl_reg, ttn_reg, vts_ttn_reg,
}
use libdvdnav.Vm.Sets.{same_domain, entry}

unfoldable pub video_attr_of : Domain → V VideoAttr
video_attr_of vts_title = do h ← get_vtsi; pure h.vts_video_attr
video_attr_of vts_menu = do h ← get_vtsi; pure h.vtsm_video_attr
video_attr_of vmgm = do h ← get_vmgi; pure h.vmgm_video_attr
video_attr_of first_play = do h ← get_vmgi; pure h.vmgm_video_attr

unfoldable pub vm_get_video_attr : V VideoAttr
vm_get_video_attr = do s ← get_state; video_attr_of s.domain

-- Width and height; a picture size of another number leaves the width as it was.
unfoldable pub picture : ℕ → ℕ → ℕ → ℕ × ℕ
picture width height size =
    if size == 0
    then (720, height)
    else if size == 1
    then (704, height)
    else if size == 2
    then (352, height)
    else if size == 3
    then (352, height / 2)
    else (width, height)

unfoldable pub vm_get_video_res : ℕ → V (ℕ × ℕ)
vm_get_video_res width = do
  attr ← vm_get_video_attr
  pure (picture width (if attr.video_format != 0 then 576 else 480) attr.picture_size)

unfoldable pub vm_get_video_aspect : V ℕ
vm_get_video_aspect = do
  attr ← vm_get_video_attr
  let aspect = attr.display_aspect_ratio
  assert (aspect == 0 || aspect == 3)
  old ← sprm 14
  put_sprm 14 (bit_and old 0xf3ff)
  cleared ← sprm 14
  put_sprm 14 (bit_or cleared (aspect * 2 ^ 10))
  pure aspect

unfoldable pub vm_get_video_scale_permission : V ℕ
vm_get_video_scale_permission = do attr ← vm_get_video_attr; pure attr.permitted_df

-- Outside of titles there is stream 0 only, and it is there.
abbrev pub in_menu : Domain → ℤ → ℤ
in_menu d (pos n) = pos n
in_menu d (negsuc n) = if same_domain d vts_title then negsuc n else pos 0

abbrev pub logical : Domain → ℕ → ℕ
logical d n = if same_domain d vts_title then n else 0

unfoldable pub audio_of : ℕ → ℤ
audio_of control =
    if truth (bit_and control 0x8000) then pos (bit_and (shr control 8) 0x07) else negsuc 0

unfoldable pub vm_get_audio_stream : ℕ → V ℤ
vm_get_audio_stream n = do
  s ← get_state
  pgc ← current_pgc
  when ltb (logical s.domain n) 8
      then (do
        control ← element (get_elem? pgc.audio_control (logical s.domain n))
        pure (in_menu s.domain (audio_of control)))
      else pure (in_menu s.domain (negsuc 0))

-- For the aspect ratio, and the mode of a wide picture: 0 wide, 1 letterbox, 2 pan and scan.
unfoldable pub subp_of : (aspect mode control : ℕ) → ℤ
subp_of aspect mode control =
    if not (truth (bit_and control 0x80000000))
    then negsuc 0
    else if aspect == 0
    then pos (bit_and (shr control 24) 0x1f)
    else if aspect == 3
    then (if mode == 0
        then pos (bit_and (shr control 16) 0x1f)
        else if mode == 1
        then pos (bit_and (shr control 8) 0x1f)
        else if mode == 2
        then pos (bit_and control 0x1f)
        else negsuc 0)
    else negsuc 0

unfoldable pub vm_get_subp_stream : (n mode : ℕ) → V ℤ
vm_get_subp_stream n mode = do
  aspect ← vm_get_video_aspect
  s ← get_state
  pgc ← current_pgc
  when ltb (logical s.domain n) 32
      then (do
        control ← element (get_elem? pgc.subp_control (logical s.domain n))
        pure (in_menu s.domain (subp_of aspect mode control)))
      else pure (in_menu s.domain (negsuc 0))

-- The loop over the streams from `n` on, of which `count` are left, for the first that exists.
unfoldable pub first_stream : (ℕ → V ℕ) → ℕ → (ℕ → V ℤ) → (n count : ℕ) → V ℤ
first_stream control bit stream n zero = pure (negsuc 0)
first_stream control bit stream n (suc count) = do
  c ← control n
  let rest = first_stream control bit stream (n + 1) count
  when truth (bit_and c bit)
      then (do found ← stream n; elim found [ pos k ↦ pure (pos k) | negsuc _ ↦ rest ])
      else rest

unfoldable pub audio_control : ℕ → V ℕ
audio_control n = do pgc ← current_pgc; element (get_elem? pgc.audio_control n)

unfoldable pub subp_control : ℕ → V ℕ
subp_control n = do pgc ← current_pgc; element (get_elem? pgc.subp_control n)

unfoldable pub vm_get_audio_active_stream : V ℤ
vm_get_audio_active_stream = do
  n ← sprm 1
  stream ← vm_get_audio_stream n
  elim stream [
    | pos k ↦ pure (pos k)
    | negsuc _ ↦ first_stream audio_control 0x8000 vm_get_audio_stream 0 8
  ]

-- Bit 7 hides the stream; -1 has all bits already.
abbrev pub hidden : Bool → ℤ → ℤ
hidden true (pos n) = pos (bit_or n 0x80)
hidden true (negsuc n) = negsuc n
hidden false stream = stream

unfoldable pub vm_get_subp_active_stream : ℕ → V ℤ
vm_get_subp_active_stream mode = do
  register ← sprm 2
  stream ← vm_get_subp_stream (bit_and register 0xffbf) mode
  found ← (elim stream [
    | pos k ↦ pure (pos k)
    | negsuc _ ↦ first_stream subp_control 0x80000000 (λ n. vm_get_subp_stream n mode) 0 32
  ])
  s ← get_state
  after ← sprm 2
  pure (hidden (same_domain s.domain vts_title && not (truth (bit_and after 0x40))) found)

-- The current angle and their number.
unfoldable pub angle_of : Domain → V (ℕ × ℕ)
angle_of vts_title = do
  vmgi ← get_vmgi
  s ← get_state
  ttn ← sprm ttn_reg
  when ltb (length vmgi.tt_srpt) ttn then pure (1, 1) else (do
    title ← element (entry vmgi.tt_srpt ttn)
    vts_ttn ← sprm vts_ttn_reg
    angle ← sprm agl_reg
    when title.title_set_nr != s.vts_n || title.vts_ttn != vts_ttn
        then pure (1, 1)
        else pure (angle, title.nr_of_angles))
angle_of _ = pure (1, 1)

unfoldable pub vm_get_angle_info : V (ℕ × ℕ)
vm_get_angle_info = do s ← get_state; angle_of s.domain
