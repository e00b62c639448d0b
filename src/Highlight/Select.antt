-- ===== src/Highlight/Select.antt =====
-- What the mouse does to the player in highlight.c.
use libdvdnav.Prelude.{
  Bool-cases, true, false, le→leb, lt→ltb, ◌!=◌, ℕ, zero, suc, ◌≤◌, ◌<◌, ◌≡◌, ◌⊎◌, inl, inr, refl,
  ◌∙◌, arith, List, [], ◌∷◌, length, All, lt_of_get_elem?, set, u16, shl,
}
use libdvdnav.Prelude.Program.{value, ◌>>=◌}
use libdvdnav.Decoder.State.{Registers}
use libdvdnav.Vm.State.{State, Vm, put_sprm, hl_btnn_reg, get_state, put_state}
use libdvdnav.Player.State.{Dvdnav, Pci, Button, run_vm, update, minus_one}
use libdvdnav.Highlight.{is_in_menu, button_register, choose, dvdnav_button_select}
use libdvdnav.Highlight.Mouse.{
  select_other, largest_distance, closest, take, find_button, dvdnav_mouse_select,
}
use libdvdnav.Highlight.Nearest.{IsOnScreen, IsMissed, IsNearest, closest-IsNearest}

length-take : (n : ℕ) (buttons : List Button) → length (take n buttons) ≤ n
length-take zero buttons = omega arith
length-take (suc n) [] = omega arith
length-take (suc n) (b ∷ buttons) = omega (arith, length-take n buttons)

-- The player after a choice.
abbrev pub after_choice : ℕ → Dvdnav → Dvdnav
after_choice button this =
    let vm : Vm = this.vm in
    let s : State = vm.state in
    let r : Registers = s.registers in
    record this {
      position_current = record this.position_current { button = minus_one };
      vm = record vm {
        state = record s {
          registers = record r { sprm = set r.sprm hl_btnn_reg (u16 (shl button 10)) };
        };
      };
    }

select_ok :
    (pci : Pci) (this : Dvdnav) (button : ℕ)
    → is_in_menu pci this ≡ true
    → 0 < button
    → button ≤ pci.btn_ns
    → dvdnav_button_select pci button this ≡ value true (after_choice button this)
unfolding dvdnav_button_select choose run_vm update put_sprm get_state put_state ◌>>=◌
select_ok pci this button menu above below =
    simp (menu, lt→ltb 0 button above, le→leb button pci.btn_ns below) refl

suc_ne_zero : (i : ℕ) → (suc i != 0) ≡ true
suc_ne_zero i = ground arith

other_lem :
    (pci : Pci) (this this' : Dvdnav) (cur i : ℕ)
    → (suc i != cur) ≡ true
    → dvdnav_button_select pci (suc i) this ≡ value true this'
    → select_other pci cur (suc i) this ≡ value true this'
unfolding select_other ◌>>=◌
other_lem pci this this' cur i other selects = simp (suc_ne_zero i, other, selects) refl

same_lem :
    (pci : Pci) (this : Dvdnav) (cur i : ℕ)
    → (suc i != cur) ≡ false
    → select_other pci cur (suc i) this ≡ value true this
unfolding select_other ◌>>=◌
same_lem pci this cur i same = simp (suc_ne_zero i, same) refl

module _ (pci : Pci) (x y : ℕ) (this : Dvdnav) (cur : ℕ) where
  -- The button at position `i` is chosen, unless it is chosen already.
  abbrev pub Chooses : (i : ℕ) → Dvdnav → Type 0
  Chooses i this' =
      ((suc i ≡ cur) × (this' ≡ this)) ⊎ (dvdnav_button_select pci (suc i) this ≡ value true this')

  abbrev pub buttons : List Button
  buttons = take pci.btn_ns pci.btnit

  found_lem :
      (best : ℕ)
      → is_in_menu pci this ≡ true
      → button_register this.vm ≡ value cur this.vm
      → pci.btn_ns ≤ length pci.btnit
      → closest x y 1 buttons 0 largest_distance ≡ best
      → dvdnav_mouse_select pci x y this ≡ select_other pci cur best this
  unfolding dvdnav_mouse_select find_button run_vm ◌>>=◌
  found_lem best menu at enough found =
      simp (menu, at, le→leb pci.btn_ns (length pci.btnit) enough, found) refl

  hit_lem :
      (i : ℕ)
      → is_in_menu pci this ≡ true
      → IsNearest x y buttons i
      → (this' : Dvdnav) × (select_other pci cur (suc i) this ≡ value true this') × Chooses i this'
  hit_lem i menu near =
      let selects : dvdnav_button_select pci (suc i) this ≡ value true (after_choice (suc i) this) =
        select_ok pci this (suc i) menu (omega arith) (
          omega (
            arith,
            lt_of_get_elem? buttons i near.target near.listed,
            length-take pci.btn_ns pci.btnit,
          )) in
      elim (Bool-cases (suc i != cur)) [
        | inl other ↦ (
          after_choice (suc i) this,
          other_lem pci this (after_choice (suc i) this) cur i other selects,
          inr selects,
        )
        | inr same ↦ (this, same_lem pci this cur i same, inl (ground (arith, same), refl))
      ]

  -- In a menu, the mouse chooses the button that it is in, the nearest if there are several, and fails
  -- if it is in none.
  pub dvdnav_mouse_select_lem :
      is_in_menu pci this ≡ true
      → button_register this.vm ≡ value cur this.vm
      → pci.btn_ns ≤ length pci.btnit
      → All (IsOnScreen x y) buttons
      → ((dvdnav_mouse_select pci x y this ≡ value false this) × All (IsMissed x y) buttons)
        ⊎ ((i : ℕ) × IsNearest x y buttons i
            × (this' : Dvdnav) × (dvdnav_mouse_select pci x y this ≡ value true this')
            × Chooses i this')
  unfolding select_other ◌>>=◌
  dvdnav_mouse_select_lem menu at enough screen = elim (closest-IsNearest x y buttons screen) [
    | inl (missed, all) ↦ inl (found_lem 0 menu at enough missed, all)
    | inr (i, found, near) ↦
        let (this', selects, chooses) = hit_lem i menu near in
        inr (i, near, this', found_lem (suc i) menu at enough found ∙ selects, chooses)
  ]
