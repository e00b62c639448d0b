-- ===== src/Navigation.antt =====
-- navigation.c: stills, titles and parts.
use libdvdnav.Prelude.{
  Bool, true, false, if◌then◌else◌, ◌&&◌, leb, ltb, ℕ, Option, none, some, length,
}
use libdvdnav.Prelude.Program.{pure, get, when◌then◌else◌, ◌>>=◌, ◌>>◌}
use libdvdnav.Vm.Disc.{Ifo, TitleInfo}
use libdvdnav.Vm.State.{V, Vm, Domain, first_play, vts_title, vmgm, vts_menu, get_state}
use libdvdnav.Vm.Sets.{entry}
use libdvdnav.Vm.Lookup.{vm_get_current_menu, vm_get_current_title_part}
use libdvdnav.Vm.Jumps.{vm_jump_title_part, vm_jump_title_program, vm_jump_up}
use libdvdnav.Vm.Start.{vm_start}
use libdvdnav.Player.State.{Dvdnav, P, run_vm, update}
use libdvdnav.Highlight.{hop}

unfoldable pub dvdnav_still_skip : P Bool
unfolding ◌>>=◌ update
dvdnav_still_skip = do
  update (λ this. record this {
    position_current = record this.position_current { still = 0 };
    skip_still = true;
    sync_wait = false;
    sync_wait_skip = true;
  })
  pure true

unfoldable pub dvdnav_wait_skip : P Bool
unfolding ◌>>=◌ update
dvdnav_wait_skip = do
  update (λ this. record this { sync_wait = false; sync_wait_skip = true })
  pure true

-- `none` is DVDNAV_STATUS_ERR.
unfoldable pub titles_of : Option Ifo → Option ℕ
titles_of none = none
titles_of (some vmgi) = some (length vmgi.tt_srpt)

unfoldable pub dvdnav_get_number_of_titles : P (Option ℕ)
unfolding ◌>>=◌ titles_of
dvdnav_get_number_of_titles = do this ← get; pure (titles_of this.vm.vmgi)

-- A title below 1 is taken as 0.
unfoldable pub title_of : Option Ifo → (title : ℕ) → Option TitleInfo
title_of none title = none
title_of (some vmgi) title = entry vmgi.tt_srpt title

unfoldable pub parts_of : Option TitleInfo → Option ℕ
parts_of none = none
parts_of (some title) = some title.nr_of_ptts

unfoldable pub dvdnav_get_number_of_parts : (title : ℕ) → P (Option ℕ)
unfolding ◌>>=◌ title_of parts_of
dvdnav_get_number_of_parts title = do this ← get; pure (parts_of (title_of this.vm.vmgi title))

abbrev pub is_some : {A : Type 0} → Option A → Bool
is_some none = false
is_some (some _) = true

-- The machine has its tables and a program chain, and runs.
unfoldable pub is_playing : Dvdnav → Bool
is_playing this =
    is_some this.vm.vtsi && is_some this.vm.vmgi && this.started && is_some this.vm.state.pgc

-- A menu is title 0, with its kind as part; `none` is the failure of a search.
unfoldable pub as_menu : Option ℕ → Option (ℕ × ℕ)
as_menu none = none
as_menu (some part) = some (0, part)

unfoldable pub title_and_part : Domain → V (Option (ℕ × ℕ))
unfolding ◌>>=◌ vm_get_current_menu vm_get_current_title_part as_menu
title_and_part vts_menu = do menu ← vm_get_current_menu; pure (as_menu menu)
title_and_part vmgm = do menu ← vm_get_current_menu; pure (as_menu menu)
title_and_part vts_title = vm_get_current_title_part
title_and_part first_play = pure none

unfoldable pub dvdnav_current_title_info : P (Option (ℕ × ℕ))
unfolding ◌>>=◌ run_vm is_playing title_and_part
dvdnav_current_title_info = do
  this ← get
  when is_playing this then run_vm (title_and_part this.vm.state.domain) else pure none

-- The title with the numbers of the program chain and the program.
unfoldable pub with_program : Option (ℕ × ℕ) → V (Option (ℕ × ℕ × ℕ))
unfolding ◌>>=◌ get_state
with_program none = pure none
with_program (some (title, part)) = do s ← get_state; pure (some (title, s.pgc_n, s.pg_n))

unfoldable pub dvdnav_current_title_program : P (Option (ℕ × ℕ × ℕ))
unfolding ◌>>=◌ run_vm is_playing title_and_part with_program
dvdnav_current_title_program = do
  this ← get
  when is_playing this
      then run_vm (title_and_part this.vm.state.domain >>= with_program)
      else pure none

-- `if (retval) this->vm->hop_channel++`.
unfoldable pub hop_if : Bool → P Bool
unfolding ◌>>=◌ update hop
hop_if jumped = do
  when jumped then update (λ this. record this { vm = hop this.vm }) else pure tt
  pure jumped

module _ (left rounds : ℕ) where
  -- The machine is started, whether this succeeds or not.
  unfoldable pub start_nicely : P (Unit {0})
  unfolding ◌>>=◌ run_vm vm_start update
  start_nicely = do
    this ← get
    when this.started then pure tt else (do
      running ← run_vm (vm_start left rounds)
      update (λ now. record now { started = true }))

  -- The title that is to be played, if the player can play.
  unfoldable pub playable : (title : ℕ) → P (Option TitleInfo)
  unfolding ◌>>=◌ start_nicely title_of
  playable title = do
    before ← get
    when is_some before.vm.vmgi
        then (do
          start_nicely
          this ← get
          pure (if is_some this.vm.state.pgc then title_of this.vm.vmgi title else none))
        else pure none

  unfoldable pub play_part : (title part : ℕ) → Option TitleInfo → P Bool
  unfolding ◌>>=◌ run_vm hop_if
  play_part title part none = pure false
  play_part title part (some info) =
      when ltb 0 part && leb part info.nr_of_ptts
      then run_vm (vm_jump_title_part left rounds title part) >>= hop_if
      else pure false

  unfoldable pub dvdnav_part_play : (title part : ℕ) → P Bool
  unfolding ◌>>=◌ playable play_part
  dvdnav_part_play title part = playable title >>= play_part title part

  unfoldable pub dvdnav_title_play : (title : ℕ) → P Bool
  unfolding dvdnav_part_play
  dvdnav_title_play title = dvdnav_part_play title 1

  unfoldable pub play_program : (title pgcn pgn : ℕ) → Option TitleInfo → P Bool
  unfolding ◌>>=◌ run_vm hop_if
  play_program title pgcn pgn none = pure false
  play_program title pgcn pgn (some info) =
      run_vm (vm_jump_title_program left rounds title pgcn pgn) >>= hop_if

  unfoldable pub dvdnav_program_play : (title pgcn pgn : ℕ) → P Bool
  unfolding ◌>>=◌ playable play_program
  dvdnav_program_play title pgcn pgn = playable title >>= play_program title pgcn pgn

  -- Always an error.
  unfoldable pub dvdnav_part_play_auto_stop : (title part parts_to_play : ℕ) → P Bool
  unfolding ◌>>=◌ dvdnav_part_play
  dvdnav_part_play_auto_stop title part parts_to_play = do
    played ← dvdnav_part_play title part
    pure false

  unfoldable pub dvdnav_go_up : P Bool
  unfolding run_vm
  dvdnav_go_up = run_vm (vm_jump_up left rounds)

unfoldable pub dvdnav_stop : P Bool
unfolding ◌>>=◌ update
dvdnav_stop = do
  update (λ this. let vm : Vm = this.vm in record this { vm = record vm { stopped = true } })
  pure true
