-- ===== src/Player/Settle.antt =====
-- The changes that dvdnav_get_next_cache_block of dvdnav.c tells come to an end.
use libdvdnav.Prelude.{true, ℕ, ◌<◌, ◌≡◌}
use libdvdnav.Prelude.Program.{Outcome, value, aborted, fault, unfinished, ◌>>◌}
use libdvdnav.Vm.State.{Vm}
use libdvdnav.Vm.Position.{Position}
use libdvdnav.Player.State.{Dvdnav}
use libdvdnav.Player.Events.{Reply}
use libdvdnav.Player.Untold.{is_change, untold}
use libdvdnav.Player.Quiet.{Quiet}

-- If a run of the player tells a change, less is left to be told.
unfoldable pub Settles : Outcome Dvdnav Reply → ℕ → Type 0
Settles (value reply this) n = is_change reply ≡ true → untold this < n
Settles aborted n = Unit
Settles fault n = Unit
Settles unfinished n = Unit
