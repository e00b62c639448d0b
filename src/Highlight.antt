-- ===== src/Highlight.antt =====
-- highlight.c: the buttons of a menu, chosen by keys or by the mouse.
use libdvdnav.Prelude.{
  Bool, true, false, if◌then◌else◌, not, ◌&&◌, ◌||◌, ◌==◌, ◌!=◌, leb, ltb, truth, ℕ, zero, suc, ◌+◌,
  ◌-◌, ◌*◌, ◌/◌, ◌^◌, Option, none, some, List, [], ◌∷◌, length, get_elem?, shr, shl, u32,
}
use libdvdnav.Prelude.Int.{ℤ, pos, negsuc}
use libdvdnav.Prelude.Program.{pure, get, element, when◌then◌else◌, ◌>>=◌, ◌>>◌}
use libdvdnav.Decoder.Eval.{VmCmd}
use libdvdnav.Vm.State.{V, Vm, sprm, put_sprm, hl_btnn_reg}
use libdvdnav.Vm.Position.{Position}
use libdvdnav.Vm.Sets.{entry}
use libdvdnav.Vm.Jumps.{vm_get_next_cell, vm_exec_cmd}
use libdvdnav.Player.State.{Dvdnav, Pci, Button, P, run_vm, update, minus_one}
pub mod Mouse
pub mod Nearest
pub mod Select
pub mod Tests

-- The button of the register.
unfoldable pub button_register : V ℕ
unfolding ◌>>=◌ sprm
button_register = do r ← sprm hl_btnn_reg; pure (shr r 10)

-- The button that the screen has, or that of the register.
unfoldable pub dvdnav_get_current_highlight : P ℕ
unfolding ◌>>=◌ run_vm button_register
dvdnav_get_current_highlight = do
  this ← get
  when this.position_current.button == minus_one
      then run_vm button_register
      else pure this.position_current.button

-- There is a menu, and its packet was not left.
unfoldable pub is_in_menu : Pci → Dvdnav → Bool
is_in_menu pci this = truth pci.hli_ss && this.last_cmd_nav_lbn != pci.nv_pck_lbn

-- `none` is NULL. A button that the menu has no entry for is a fault.
unfoldable pub get_current_button : Pci → P (Option Button)
unfolding ◌>>=◌ is_in_menu run_vm button_register
get_current_button pci = do
  this ← get
  when is_in_menu pci this
      then (do button ← run_vm button_register; b ← element (entry pci.btnit button); pure (some b))
      else pure none

-- The button is chosen, and its highlight is to be shown anew.
unfoldable pub choose : ℕ → P (Unit {0})
unfolding ◌>>=◌ run_vm put_sprm update
choose button = do
  run_vm (put_sprm hl_btnn_reg (shl button 10))
  update (λ this. record this {
    position_current = record this.position_current { button = minus_one };
  })

-- `true` is DVDNAV_STATUS_OK.
unfoldable pub dvdnav_button_select : Pci → (button : ℕ) → P Bool
unfolding ◌>>=◌ is_in_menu choose
dvdnav_button_select pci button = do
  this ← get
  when is_in_menu pci this && ltb 0 button && leb button pci.btn_ns
      then (do choose button; pure true)
      else pure false

-- `dvdnav_highlight_area_t`.
pub record HighlightArea : Type 0 where
  pub palette : ℕ
  pub sx : ℕ
  pub sy : ℕ
  pub ex : ℕ
  pub ey : ℕ
  pub pts : ℕ
  pub button_n : ℕ

-- The colours of a button in a mode.
unfoldable pub palette_of : Pci → Button → (mode : ℕ) → P ℕ
unfolding ◌>>=◌
palette_of pci b mode =
    when b.btn_coln != 0
    then (do colours ← element (entry pci.btn_coli b.btn_coln); element (get_elem? colours mode))
    else pure 0

-- `none` is DVDNAV_STATUS_ERR.
unfoldable pub dvdnav_get_highlight_area : Pci → (button mode : ℕ) → P (Option HighlightArea)
unfolding ◌>>=◌ palette_of
dvdnav_get_highlight_area pci button mode =
    when truth pci.hli_ss && ltb 0 button && leb button pci.btn_ns
    then (do
      b ← element (entry pci.btnit button)
      palette ← palette_of pci b mode
      pure (
          some (record {
            palette = palette;
            sx = b.x_start;
            sy = b.y_start;
            ex = b.x_end;
            ey = b.y_end;
            pts = pci.hli_s_ptm;
            button_n = button;
          })))
    else pure none

-- `vm->hop_channel++`.
unfoldable pub hop : Vm → Vm
hop vm = record vm { hop_channel = u32 (vm.hop_channel + 1) }

-- A command caused a jump.
abbrev pub after_jump : Pci → Dvdnav → Dvdnav
after_jump pci this = record this {
  vm = hop this.vm;
  position_current = record this.position_current { still = 0 };
  last_cmd_nav_lbn = pci.nv_pck_lbn;
}

-- A still without buttons was left.
abbrev pub after_still : Pci → Dvdnav → Dvdnav
after_still pci this = record this {
  position_current = record this.position_current { still = 0 };
  sync_wait = false;
  last_cmd_nav_lbn = pci.nv_pck_lbn;
}

module _ (left rounds : ℕ) where
  unfoldable pub run_button : Pci → Option Button → P Bool
  unfolding ◌>>=◌ run_vm update hop
  run_button pci none = pure false
  run_button pci (some b) = do
    jumped ← run_vm (vm_exec_cmd left rounds b.cmd)
    when jumped then update (after_jump pci) else pure tt
    pure true

  -- Without buttons, a still is left.
  unfoldable pub leave_still : Pci → P Bool
  unfolding ◌>>=◌ run_vm update
  leave_still pci = do
    this ← get
    when this.position_current.still != 0
        then (do
          played ← run_vm (vm_get_next_cell left rounds)
          update (after_still pci)
          pure true)
        else pure false

  unfoldable pub dvdnav_button_activate : Pci → P Bool
  unfolding ◌>>=◌ is_in_menu run_vm button_register leave_still get_current_button run_button
  dvdnav_button_activate pci = do
    this ← get
    when is_in_menu pci this
        then (do
          button ← run_vm button_register
          when button == 0 || ltb pci.btn_ns button
              then leave_still pci
              else get_current_button pci >>= run_button pci)
        else pure false

  unfoldable pub run_command : (button : ℕ) → VmCmd → P (Unit {0})
  unfolding ◌>>=◌ run_vm update hop put_sprm
  run_command button cmd = do
    run_vm (put_sprm hl_btnn_reg (shl button 10))
    jumped ← run_vm (vm_exec_cmd left rounds cmd)
    when jumped then update (λ this. record this { vm = hop this.vm }) else pure tt

  -- A button below 1 has no command.
  unfoldable pub dvdnav_button_activate_cmd : (button : ℤ) → VmCmd → P Bool
  unfolding ◌>>=◌ update run_command
  dvdnav_button_activate_cmd button cmd = do
    elim button [ pos zero ↦ pure tt | pos (suc n) ↦ run_command (suc n) cmd | negsuc _ ↦ pure tt ]
    update (λ this. record this {
      position_current = record this.position_current { still = 0 };
      sync_wait = false;
    })
    pure true

  unfoldable pub auto_action : Pci → Option Button → P Bool
  unfolding ◌>>=◌ dvdnav_button_activate
  auto_action pci none = pure false
  auto_action pci (some b) = when b.auto_action_mode then dvdnav_button_activate pci else pure true

  unfoldable pub button_auto_action : Pci → P Bool
  unfolding ◌>>=◌ get_current_button auto_action
  button_auto_action pci = get_current_button pci >>= auto_action pci

  -- The neighbour of the current button in a direction.
  unfoldable pub select_next : (Button → ℕ) → Pci → Option Button → P Bool
  unfolding ◌>>=◌ dvdnav_button_select button_auto_action
  select_next direction pci none = pure false
  select_next direction pci (some b) = do
    chosen ← dvdnav_button_select pci (direction b)
    button_auto_action pci

  unfoldable pub dvdnav_upper_button_select : Pci → P Bool
  unfolding ◌>>=◌ get_current_button select_next
  dvdnav_upper_button_select pci = get_current_button pci >>= select_next (λ b. b.up) pci

  unfoldable pub dvdnav_lower_button_select : Pci → P Bool
  unfolding ◌>>=◌ get_current_button select_next
  dvdnav_lower_button_select pci = get_current_button pci >>= select_next (λ b. b.down) pci

  unfoldable pub dvdnav_right_button_select : Pci → P Bool
  unfolding ◌>>=◌ get_current_button select_next
  dvdnav_right_button_select pci = get_current_button pci >>= select_next (λ b. b.right) pci

  unfoldable pub dvdnav_left_button_select : Pci → P Bool
  unfolding ◌>>=◌ get_current_button select_next
  dvdnav_left_button_select pci = get_current_button pci >>= select_next (λ b. b.left) pci

  unfoldable pub dvdnav_button_select_and_activate : Pci → (button : ℕ) → P Bool
  unfolding ◌>>=◌ dvdnav_button_select dvdnav_button_activate
  dvdnav_button_select_and_activate pci button = do
    chosen ← dvdnav_button_select pci button
    when chosen then dvdnav_button_activate pci else pure false
