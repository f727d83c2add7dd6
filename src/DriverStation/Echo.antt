-- ===== src/DriverStation/Echo.antt =====
-- What a patch sends, read back by the code's own reader.
use code_runner.Prelude.{
  List, [], ◌∷◌, ◌++◌, Option, none, some, Bool, true, false, ◌≡◌, refl, ◌∙◌, ap, arith,
}
use code_runner.Json.{Fields}
use code_runner.DriverStation.{
  DsMode, auto, teleop, test, AllianceStation, red1, red2, red3, blue1, blue2, blue3,
  DriverStationState, DriverStationPatch, read_frame, apply_patch, and_then, Sends, moded,
  stationed, stopped, disable_for_mode, set_mode, set_alliance, set_e_stop, set_enabled,
}

-- The simulator reports the frames back one by one.
abbrev pub read_frames : List Fields → DriverStationState → DriverStationState
read_frames [] ds = ds
read_frames (f ∷ fs) ds = read_frames fs (read_frame f ds)

read_frames-append :
    (fs gs : List Fields) (ds : DriverStationState)
    → read_frames (fs ++ gs) ds ≡ read_frames gs (read_frames fs ds)
read_frames-append [] gs ds = refl
read_frames-append (f ∷ fs) gs ds = read_frames-append fs gs (read_frame f ds)

-- A part of the patch whose frames read back as its result.
abbrev pub Echoes : DriverStationState → Sends → Type 0
Echoes ds r = read_frames r.1 ds ≡ r.0

Echoes-and_then :
    (ds : DriverStationState) (r : Sends) (f : DriverStationState → Sends)
    → Echoes ds r
    → ((d : DriverStationState) → Echoes d (f d))
    → Echoes ds (and_then r f)
Echoes-and_then ds (d, sent) f h k =
    read_frames-append sent (f d).1 ds ∙ ap (read_frames (f d).1) h ∙ k d

disable_for_mode-Echoes :
    (m : Option DsMode) (ds : DriverStationState) → Echoes ds (disable_for_mode m ds)
unfolding disable_for_mode read_frame
disable_for_mode-Echoes none ds = refl
disable_for_mode-Echoes (some m) ds = ground arith

set_mode-Echoes : (m : Option DsMode) (ds : DriverStationState) → Echoes ds (set_mode m ds)
unfolding set_mode read_frame
set_mode-Echoes none ds = refl
set_mode-Echoes (some auto) ds = refl
set_mode-Echoes (some teleop) ds = refl
set_mode-Echoes (some test) ds = refl

set_alliance-Echoes :
    (a : Option AllianceStation) (ds : DriverStationState) → Echoes ds (set_alliance a ds)
unfolding set_alliance read_frame
set_alliance-Echoes none ds = refl
set_alliance-Echoes (some red1) ds = refl
set_alliance-Echoes (some red2) ds = refl
set_alliance-Echoes (some red3) ds = refl
set_alliance-Echoes (some blue1) ds = refl
set_alliance-Echoes (some blue2) ds = refl
set_alliance-Echoes (some blue3) ds = refl

set_e_stop-Echoes : (b : Option Bool) (ds : DriverStationState) → Echoes ds (set_e_stop b ds)
unfolding set_e_stop read_frame
set_e_stop-Echoes none ds = refl
set_e_stop-Echoes (some true) ds = refl
set_e_stop-Echoes (some false) ds = refl

set_enabled-Echoes : (b : Option Bool) (ds : DriverStationState) → Echoes ds (set_enabled b ds)
unfolding set_enabled read_frame
set_enabled-Echoes none ds = refl
set_enabled-Echoes (some b) ds = ground arith

pub moded-Echoes : (p : DriverStationPatch) (ds : DriverStationState) → Echoes ds (moded p ds)
unfolding moded
moded-Echoes p ds =
    Echoes-and_then ds (disable_for_mode p.mode ds) (set_mode p.mode)
      (disable_for_mode-Echoes p.mode ds) (set_mode-Echoes p.mode)

pub stationed-Echoes :
    (p : DriverStationPatch) (ds : DriverStationState) → Echoes ds (stationed p ds)
unfolding stationed
stationed-Echoes p ds =
    Echoes-and_then ds (moded p ds) (set_alliance p.alliance) (moded-Echoes p ds)
      (set_alliance-Echoes p.alliance)

pub stopped-Echoes : (p : DriverStationPatch) (ds : DriverStationState) → Echoes ds (stopped p ds)
unfolding stopped
stopped-Echoes p ds =
    Echoes-and_then ds (stationed p ds) (set_e_stop p.e_stopped) (stationed-Echoes p ds)
      (set_e_stop-Echoes p.e_stopped)

-- A simulator that adopts the frames of a patch in order, as this code's own reader reads them,
-- ends in the very state that the patch records for the workspace.
pub read_frames-apply_patch :
    (p : DriverStationPatch) (ds : DriverStationState)
    → read_frames (apply_patch p ds).1 ds ≡ (apply_patch p ds).0
unfolding apply_patch
read_frames-apply_patch p ds =
    Echoes-and_then ds (stopped p ds) (set_enabled p.enabled) (stopped-Echoes p ds)
      (set_enabled-Echoes p.enabled)
