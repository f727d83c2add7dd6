-- ===== src/DriverStation/Tests.antt =====
-- The driver station on concrete patches.
use code_runner.Prelude.{none, some, true, false, ◌≡◌}
use code_runner.DriverStation.{
  DriverStationState, DriverStationPatch, auto, teleop, blue1, apply_patch,
}
use code_runner.DriverStation.Echo.{read_frames, read_frames-apply_patch}
use code_runner.DriverStation.Safety.{AllSwitchDisabled, apply_patch-AllSwitchDisabled}

-- A robot that drives, asked to go on in autonomous.
abbrev driving : DriverStationState
driving = record { enabled = true; mode = teleop; e_stopped = false; alliance = blue1 }

abbrev to_auto : DriverStationPatch
to_auto = record { enabled = some true; mode = some auto; e_stopped = none; alliance = none }

abbrev e_stop : DriverStationPatch
e_stop = record { enabled = some true; mode = none; e_stopped = some true; alliance = none }

read_frames-apply_patch_example :
    read_frames (apply_patch to_auto driving).1 driving ≡ (apply_patch to_auto driving).0
read_frames-apply_patch_example = read_frames-apply_patch to_auto driving

apply_patch-AllSwitchDisabled_example : AllSwitchDisabled (apply_patch to_auto driving).1 driving
apply_patch-AllSwitchDisabled_example = apply_patch-AllSwitchDisabled to_auto driving
