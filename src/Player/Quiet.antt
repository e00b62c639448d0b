-- ===== src/Player/Quiet.antt =====
-- Reading on in dvdnav.c tells no change.
use libdvdnav.Prelude.{Bool, true, false, if◌then◌else◌, ℕ, ◌≡◌, refl, Option, none, some}
use libdvdnav.Prelude.Program.{
  then_do, Outcome, value, aborted, fault, unfinished, pure, when◌then◌else◌, ◌>>=◌,
}
use libdvdnav.Player.State.{Dvdnav, P, Libdvdread}
use libdvdnav.Player.Events.{Reply, err}
use libdvdnav.Player.Next.{nav_block, block_reply, next_block, next_vobu, end_of_cell, read_next}
use libdvdnav.Player.Untold.{is_change}

-- The reply of every run tells no change.
unfoldable pub QuietAt : Outcome Dvdnav Reply → Type 0
QuietAt (value reply now) = is_change reply ≡ false
QuietAt aborted = Unit
QuietAt fault = Unit
QuietAt unfinished = Unit

unfoldable pub Quiet : P Reply → Type 0
Quiet m = (this : Dvdnav) → QuietAt (m this)

Quiet-pure : (reply : Reply) → is_change reply ≡ false → Quiet (pure reply)
unfolding Quiet QuietAt pure
Quiet-pure reply h this = h

Quiet-when : (b : Bool) (m n : P Reply) → Quiet m → Quiet n → Quiet (when b then m else n)
unfolding Quiet when◌then◌else◌
Quiet-when true m n hm hn = hm
Quiet-when false m n hm hn = hn

Quiet-bind : {A : Type 0} (m : P A) (k : A → P Reply) → ((a : A) → Quiet (k a)) → Quiet (m >>= k)
unfolding Quiet QuietAt ◌>>=◌
Quiet-bind m k hk this = go (m this)
  where
    go : (o : Outcome Dvdnav _) → QuietAt (then_do o k)
    go (value a now) = hk a now
    go aborted = tt
    go fault = tt
    go unfinished = tt

module _ (lib : Libdvdread) (left rounds base : ℕ) where
  nav_block-Quiet : (at : Option ℕ) → Quiet (nav_block lib left rounds base at)
  unfolding nav_block is_change
  nav_block-Quiet none = Quiet-pure err refl
  nav_block-Quiet (some at) = search (Quiet-pure, Quiet-when, Quiet-bind) depth 12

  block_reply-Quiet : (at : Option ℕ) → is_change (block_reply lib left rounds base at) ≡ false
  unfolding is_change
  block_reply-Quiet none = refl
  block_reply-Quiet (some at) = refl

  next_block-Quiet : (buf : ℕ) → Quiet (next_block lib left rounds base buf)
  unfolding next_block is_change
  next_block-Quiet buf = search (Quiet-pure, Quiet-when, Quiet-bind, block_reply-Quiet) depth 12

  next_vobu-Quiet : (buf : ℕ) → Quiet (next_vobu lib left rounds base buf)
  unfolding next_vobu
  next_vobu-Quiet buf = search (Quiet-pure, Quiet-when, Quiet-bind, nav_block-Quiet) depth 12

  end_of_cell-Quiet : (buf : ℕ) → Quiet (end_of_cell left rounds buf)
  unfolding end_of_cell is_change
  end_of_cell-Quiet buf = search (Quiet-pure, Quiet-when, Quiet-bind) depth 12

  pub read_next-Quiet : (buf : ℕ) → Quiet (read_next lib left rounds base buf)
  unfolding read_next
  read_next-Quiet buf =
      search
        (Quiet-pure, Quiet-when, Quiet-bind, next_block-Quiet, next_vobu-Quiet, end_of_cell-Quiet)
        depth 12
