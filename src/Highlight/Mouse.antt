-- ===== src/Highlight/Mouse.antt =====
-- The mouse in highlight.c. Coordinates are at least 0: a negative one hits no button.
use libdvdnav.Prelude.{
  Bool, false, if◌then◌else◌, ◌&&◌, leb, ltb, ◌!=◌, ℕ, zero, suc, ◌+◌, ◌-◌, ◌*◌, ◌/◌, List, [], ◌∷◌,
  length,
}
use libdvdnav.Prelude.Program.{fault, pure, get, when◌then◌else◌, ◌>>=◌, ◌>>◌}
use libdvdnav.Player.State.{Pci, Button, P, run_vm}
use libdvdnav.Highlight.{is_in_menu, button_register, dvdnav_button_select, dvdnav_button_activate}

-- `x - y` or `y - x`.
abbrev pub gap : ℕ → ℕ → ℕ
gap a b = (a - b) + (b - a)

-- The square of the way to the centre of a button.
unfoldable pub distance : (x y : ℕ) → Button → ℕ
distance x y b =
    let dx : ℕ = gap ((b.x_start + b.x_end) / 2) x in
    let dy : ℕ = gap ((b.y_start + b.y_end) / 2) y in dx * dx + dy * dy

abbrev pub contains : (x y : ℕ) → Button → Bool
contains x y b = leb b.x_start x && leb x b.x_end && leb b.y_start y && leb y b.y_end

-- The loop over the buttons from number `button` on.
unfoldable pub closest : (x y button : ℕ) → List Button → (best dist : ℕ) → ℕ
unfolding distance
closest x y button [] best dist = best
closest x y button (b ∷ buttons) best dist =
    if contains x y b && ltb (distance x y b) dist
    then closest x y (suc button) buttons button (distance x y b)
    else closest x y (suc button) buttons best dist

abbrev pub take : ℕ → List Button → List Button
take zero buttons = []
take (suc n) [] = []
take (suc n) (b ∷ buttons) = b ∷ take n buttons

abbrev pub largest_distance : ℕ
largest_distance = 0x08000000

-- The number of the button that was hit, 0 for none. A menu that counts more buttons than it has is a
-- fault.
unfoldable pub find_button : Pci → (x y : ℕ) → P ℕ
unfolding closest
find_button pci x y =
    when leb pci.btn_ns (length pci.btnit)
    then pure (closest x y 1 (take pci.btn_ns pci.btnit) 0 largest_distance)
    else (λ this. fault)

-- The button that was hit is chosen, if it is another one.
unfoldable pub select_other : Pci → (cur_button best : ℕ) → P Bool
unfolding ◌>>=◌ dvdnav_button_select
select_other pci cur_button best = do
  (when best != 0 && best != cur_button
      then (do chosen ← dvdnav_button_select pci best; pure tt)
      else pure tt)
  pure (best != 0)

unfoldable pub dvdnav_mouse_select : Pci → (x y : ℕ) → P Bool
unfolding ◌>>=◌ is_in_menu run_vm button_register find_button select_other
dvdnav_mouse_select pci x y = do
  this ← get
  when is_in_menu pci this
      then (do
        cur_button ← run_vm button_register
        best ← find_button pci x y
        select_other pci cur_button best)
      else pure false

unfoldable pub dvdnav_mouse_activate : (left rounds : ℕ) → Pci → (x y : ℕ) → P Bool
unfolding ◌>>=◌ dvdnav_mouse_select dvdnav_button_activate
dvdnav_mouse_activate left rounds pci x y = do
  chosen ← dvdnav_mouse_select pci x y
  when chosen then dvdnav_button_activate left rounds pci else pure false
