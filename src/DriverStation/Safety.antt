-- ===== src/DriverStation/Safety.antt =====
-- When a patch may leave the robot enabled.
use code_runner.Prelude.{
  List, [], ◌∷◌, ◌++◌, Option, none, some, Bool, true, false, ◌≡◌, ◌⊎◌, arith,
}
use code_runner.Json.{Fields}
use code_runner.DriverStation.{
  DsMode, auto, teleop, test, AllianceStation, DriverStationState, DriverStationPatch, read_frame,
  apply_patch, moded, stationed, stopped, and_then, Sends, disable_for_mode, set_mode, set_alliance,
  set_e_stop, set_enabled,
}
use code_runner.DriverStation.Echo.{read_frames, moded-Echoes, stationed-Echoes, stopped-Echoes}

-- The robot is not enabled on both sides of a change of mode.
abbrev pub SwitchesDisabled : DriverStationState → DriverStationState → Type 0
SwitchesDisabled before after =
    (before.mode ≡ after.mode) ⊎ ((before.enabled ≡ false) × (after.enabled ≡ false))

-- So at every frame of a list that a simulator adopts in order.
abbrev pub AllSwitchDisabled : List Fields → DriverStationState → Type 0
AllSwitchDisabled [] ds = Unit
AllSwitchDisabled (f ∷ fs) ds =
    SwitchesDisabled ds (read_frame f ds) × AllSwitchDisabled fs (read_frame f ds)

AllSwitchDisabled-append :
    (fs gs : List Fields) (ds : DriverStationState)
    → AllSwitchDisabled fs ds
    → AllSwitchDisabled gs (read_frames fs ds)
    → AllSwitchDisabled (fs ++ gs) ds
AllSwitchDisabled-append [] gs ds h k = k
AllSwitchDisabled-append (f ∷ fs) gs ds h k =
    (h.0, AllSwitchDisabled-append fs gs (read_frame f ds) h.1 k)

AllSwitchDisabled-and_then :
    (ds : DriverStationState) (r : Sends) (f : DriverStationState → Sends)
    → read_frames r.1 ds ≡ r.0
    → AllSwitchDisabled r.1 ds
    → AllSwitchDisabled (f r.0).1 r.0
    → AllSwitchDisabled (and_then r f).1 ds
AllSwitchDisabled-and_then ds (d, sent) f e h k =
    AllSwitchDisabled-append sent (f d).1 ds h (rw e k)

moded_switches :
    (m : Option DsMode) (ds : DriverStationState)
    → AllSwitchDisabled (and_then (disable_for_mode m ds) (set_mode m)).1 ds
unfolding disable_for_mode set_mode read_frame
moded_switches none ds = tt
moded_switches (some auto) ds = ground arith
moded_switches (some teleop) ds = ground arith
moded_switches (some test) ds = ground arith

set_alliance_switches :
    (a : Option AllianceStation) (ds : DriverStationState)
    → AllSwitchDisabled (set_alliance a ds).1 ds
unfolding set_alliance read_frame
set_alliance_switches none ds = tt
set_alliance_switches (some a) ds = ground arith

set_e_stop_switches :
    (b : Option Bool) (ds : DriverStationState) → AllSwitchDisabled (set_e_stop b ds).1 ds
unfolding set_e_stop read_frame
set_e_stop_switches none ds = tt
set_e_stop_switches (some true) ds = ground arith
set_e_stop_switches (some false) ds = ground arith

set_enabled_switches :
    (b : Option Bool) (ds : DriverStationState) → AllSwitchDisabled (set_enabled b ds).1 ds
unfolding set_enabled read_frame
set_enabled_switches none ds = tt
set_enabled_switches (some b) ds = ground arith

stationed_switches :
    (p : DriverStationPatch) (ds : DriverStationState) → AllSwitchDisabled (stationed p ds).1 ds
unfolding stationed moded
stationed_switches p ds =
    AllSwitchDisabled-and_then ds (moded p ds) (set_alliance p.alliance) (moded-Echoes p ds)
      (moded_switches p.mode ds) (set_alliance_switches p.alliance _)

stopped_switches :
    (p : DriverStationPatch) (ds : DriverStationState) → AllSwitchDisabled (stopped p ds).1 ds
unfolding stopped
stopped_switches p ds =
    AllSwitchDisabled-and_then ds (stationed p ds) (set_e_stop p.e_stopped) (stationed-Echoes p ds)
      (stationed_switches p ds) (set_e_stop_switches p.e_stopped _)

enable_keeps_mode :
    (p : DriverStationPatch) (ds : DriverStationState)
    → AllSwitchDisabled (set_enabled p.enabled (stopped p ds).0).1 (stopped p ds).0
enable_keeps_mode p ds = set_enabled_switches p.enabled (stopped p ds).0

-- Whatever a patch asks for, no frame that it sends switches the mode of a simulator that was
-- enabled, or enables the robot in the frame that switches the mode.
pub apply_patch-AllSwitchDisabled :
    (p : DriverStationPatch) (ds : DriverStationState) → AllSwitchDisabled (apply_patch p ds).1 ds
unfolding apply_patch
apply_patch-AllSwitchDisabled p ds =
    AllSwitchDisabled-and_then ds (stopped p ds) (set_enabled p.enabled) (stopped-Echoes p ds)
      (stopped_switches p ds) (enable_keeps_mode p ds)
