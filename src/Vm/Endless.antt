-- ===== src/Vm/Endless.antt =====
-- process_command of vm/vm.c on a link command without a `case`.
use libdvdnav.Prelude.{ℕ, zero, suc, ◌≡◌, refl}
use libdvdnav.Prelude.Program.{unfinished, ◌>>=◌}
use libdvdnav.Decoder.State.{unnamed}
use libdvdnav.Vm.State.{Vm}
use libdvdnav.Vm.Process.{examine, follow, process_command}

-- On a link whose command has no `case` the loop of process_command never ends: no number of rounds
-- is enough.
pub process_command_endless :
    (left rounds k data1 data2 data3 : ℕ) (vm : Vm)
    → process_command left rounds
        (record { command = unnamed k; data1 = data1; data2 = data2; data3 = data3 })
        vm
      ≡ unfinished
unfolding process_command examine follow ◌>>=◌
process_command_endless left zero k a b c vm = refl
process_command_endless left (suc rounds) k a b c vm =
    process_command_endless left rounds k a b c vm
