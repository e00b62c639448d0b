-- ===== src/Highlight/Nearest.antt =====
-- Which button the mouse chooses in highlight.c.
use libdvdnav.Prelude.{
  Bool-cases, true, false, ◌&&◌, ltb, ℕ, suc, ◌+◌, ◌*◌, ◌/◌, ◌≤◌, ◌<◌, ◌≡◌, ◌⊎◌, inl, inr, refl,
  arith, some, List, [], ◌∷◌, All, get_elem?,
}
use libdvdnav.Player.State.{Button}
use libdvdnav.Highlight.Mouse.{gap, distance, contains, closest, largest_distance}

module _ (x y : ℕ) where
  -- A button that is hit is not nearer than `d`.
  abbrev pub IsNotNearer : (d : ℕ) → Button → Type 0
  IsNotNearer d c = contains x y c ≡ true → d ≤ distance x y c

  -- The button at a position is hit, and no other is nearer.
  pub record IsNearest (buttons : List Button) (i : ℕ) : Type 0 where
    pub target : Button
    pub listed : get_elem? buttons i ≡ some target
    pub hit : contains x y target ≡ true
    pub nearest : All (IsNotNearer (distance x y target)) buttons

  -- What the loop finds, if it has found `best` before.
  abbrev Finds : (button : ℕ) → List Button → (best dist found : ℕ) → Type 0
  Finds button buttons best dist found =
      ((found ≡ best) × All (IsNotNearer dist) buttons)
      ⊎ ((j : ℕ) × (found ≡ button + j)
          × (near : IsNearest buttons j) × (distance x y near.target < dist))

  head_case :
      (b : Button) (dist : ℕ)
      → (contains x y b && ltb (distance x y b) dist) ≡ false
      → IsNotNearer dist b
  head_case b dist missed hit = ground (arith, missed, hit)

  step_in :
      (button : ℕ) (b : Button) (buttons : List Button) (best dist found : ℕ)
      → Finds (suc button) buttons button (distance x y b) found
      → contains x y b ≡ true
      → distance x y b < dist
      → Finds button (b ∷ buttons) best dist found
  step_in button b buttons best dist found (inl (e, all)) hit near = inr (
    0,
    omega (arith, e),
    record { target = b; listed = refl; hit = hit; nearest = (λ _. omega arith, all) },
    near,
  )
  step_in button b buttons best dist found (inr (j, e, n, lt)) hit near = inr (
    suc j,
    omega (arith, e),
    record {
      target = n.target;
      listed = n.listed;
      hit = n.hit;
      nearest = (λ _. omega (arith, lt), n.nearest);
    },
    omega (arith, lt, near),
  )

  step_over :
      (button : ℕ) (b : Button) (buttons : List Button) (best dist found : ℕ)
      → Finds (suc button) buttons best dist found
      → IsNotNearer dist b
      → Finds button (b ∷ buttons) best dist found
  step_over button b buttons best dist found (inl (e, all)) head = inl (e, (head, all))
  step_over button b buttons best dist found (inr (j, e, n, lt)) head = inr (
    suc j,
    omega (arith, e),
    record {
      target = n.target;
      listed = n.listed;
      hit = n.hit;
      nearest = (λ h. omega (arith, head h, lt), n.nearest);
    },
    lt,
  )

  closest_lem :
      (button : ℕ) (buttons : List Button) (best dist : ℕ)
      → Finds button buttons best dist (closest x y button buttons best dist)
  unfolding closest
  closest_lem button [] best dist = inl (refl, tt)
  closest_lem button (b ∷ buttons) best dist =
      let found : Finds (suc button) buttons button (distance x y b)
          (closest x y (suc button) buttons button (distance x y b)) =
        closest_lem (suc button) buttons button (distance x y b) in
      let passed : Finds (suc button) buttons best dist
          (closest x y (suc button) buttons best dist) =
        closest_lem (suc button) buttons best dist in
      elim (Bool-cases (contains x y b && ltb (distance x y b) dist)) [
        | inl nearer ↦ rw (nearer) (
            step_in button b buttons best dist _ found (ground (arith, nearer))
              (ground (arith, nearer)))
        | inr missed ↦
            rw (missed) (step_over button b buttons best dist _ passed (head_case b dist missed))
      ]

  -- The coordinates of a button have ten bits.
  abbrev pub IsOnScreen : Button → Type 0
  IsOnScreen b = (b.x_end < 1024) × (b.y_end < 1024)

  square_le : (a b : ℕ) → a ≤ b → a * a ≤ b * b
  square_le a b h = grind arith

  near_enough :
      (b : Button) → IsOnScreen b → contains x y b ≡ true → distance x y b < largest_distance
  unfolding distance
  near_enough b screen hit =
      let dx : ℕ = gap ((b.x_start + b.x_end) / 2) x in
      let dy : ℕ = gap ((b.y_start + b.y_end) / 2) y in
      let inside : (b.x_start ≤ x) × (x ≤ b.x_end) × (b.y_start ≤ y) × (y ≤ b.y_end) =
        ground (arith, hit) in
      let dx_le : dx ≤ 1023 = omega (arith, inside, screen) in
      let dy_le : dy ≤ 1023 = omega (arith, inside, screen) in
      omega (arith, square_le dx 1023 dx_le, square_le dy 1023 dy_le)

  -- No button is hit.
  abbrev pub IsMissed : Button → Type 0
  IsMissed c = contains x y c ≡ false

  IsMissed-All :
      (buttons : List Button)
      → All IsOnScreen buttons
      → All (IsNotNearer largest_distance) buttons
      → All IsMissed buttons
  IsMissed-All [] screen far = tt
  IsMissed-All (b ∷ buttons) screen far =
      (miss b screen.0 far.0, IsMissed-All buttons screen.1 far.1)
    where
      miss : (b : Button) → IsOnScreen b → IsNotNearer largest_distance b → IsMissed b
      miss b screen far = elim (Bool-cases (contains x y b)) [
        | inl hit ↦ absurd (omega (arith, near_enough b screen hit, far hit))
        | inr missed ↦ missed
      ]

  -- The loop over all buttons.
  pub closest-IsNearest :
      (buttons : List Button)
      → All IsOnScreen buttons
      → ((closest x y 1 buttons 0 largest_distance ≡ 0) × All IsMissed buttons)
        ⊎ ((i : ℕ) × (closest x y 1 buttons 0 largest_distance ≡ suc i) × IsNearest buttons i)
  closest-IsNearest buttons screen = elim (closest_lem 1 buttons 0 largest_distance) [
    | inl (e, far) ↦ inl (e, IsMissed-All buttons screen far)
    | inr (j, e, near, _) ↦ inr (j, omega (arith, e), near)
  ]
