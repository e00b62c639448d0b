-- ===== src/Highlight/Tests.antt =====
-- Runs of highlight.c on a menu of two buttons.
use libdvdnav.Prelude.{true, false, ℕ, ◌+◌, ◌≡◌, ◌⊎◌, refl, arith, [], ◌∷◌, All}
use libdvdnav.Prelude.Program.{value, ◌>>=◌}
use libdvdnav.Vm.State.{sprm, get_state}
use libdvdnav.Player.State.{Dvdnav, Pci, Button}
use libdvdnav.Player.Tests.{playing, no_menu}
use libdvdnav.Highlight.{is_in_menu, button_register}
use libdvdnav.Highlight.Mouse.{dvdnav_mouse_select}
use libdvdnav.Highlight.Nearest.{IsMissed, IsNearest}
use libdvdnav.Highlight.Select.{Chooses, buttons, dvdnav_mouse_select_lem}

abbrev button_at : ℕ → Button
button_at x = record {
  btn_coln = 0;
  auto_action_mode = false;
  x_start = x;
  y_start = 10;
  x_end = x + 30;
  y_end = 40;
  up = 1;
  down = 2;
  left = 1;
  right = 2;
  cmd = record { b0 = 0; b1 = 0; b2 = 0; b3 = 0; b4 = 0; b5 = 0; b6 = 0; b7 = 0 };
}

abbrev menu : Pci
menu = record no_menu { hli_ss = 1; btn_ns = 2; btnit = button_at 10 ∷ button_at 20 ∷ [] }

at_register : button_register playing.vm ≡ value 0 playing.vm
unfolding button_register ◌>>=◌ sprm get_state
at_register = refl

-- Both buttons are hit, and the second one is nearer.
dvdnav_mouse_select_lem_example :
    ((dvdnav_mouse_select menu 34 20 playing ≡ value false playing)
      × All (IsMissed 34 20) (buttons menu 34 20 playing 0))
    ⊎ ((i : ℕ) × IsNearest 34 20 (buttons menu 34 20 playing 0) i
        × (this' : Dvdnav) × (dvdnav_mouse_select menu 34 20 playing ≡ value true this')
        × Chooses menu 34 20 playing 0 i this')
unfolding is_in_menu
dvdnav_mouse_select_lem_example =
    dvdnav_mouse_select_lem menu 34 20 playing 0 refl at_register (omega arith)
      ((omega arith, omega arith), ((omega arith, omega arith), tt))
