-- ===== src/DriverStation.antt =====
-- The driver station of apps/control/src/halsim.ts: its state, what a patch sends to the simulator,
-- and how a message from the simulator is read. A frame is the `data` object of a message.
pub mod Echo
pub mod Safety
mod Tests
use Prim.Native.String
use text.Mathlib.Text.{◌==◌}
use code_runner.Prelude.{
  String, List, [], ◌∷◌, ◌++◌, Option, none, some, Bool, true, false, ◌&&◌, ◌||◌, not,
  if◌then◌else◌, is_some,
}
use code_runner.Json.{Json, null, bool, str, arr, obj, Fields, end, field, prop}

pub data DsMode : Type 0 where
  auto teleop test : DsMode

pub data AllianceStation : Type 0 where
  red1 red2 red3 blue1 blue2 blue3 : AllianceStation

pub record DriverStationState : Type 0 where
  pub enabled : Bool
  pub mode : DsMode
  pub e_stopped : Bool
  pub alliance : AllianceStation

-- A field that the request leaves out is `none`.
pub record DriverStationPatch : Type 0 where
  pub enabled : Option Bool
  pub mode : Option DsMode
  pub e_stopped : Option Bool
  pub alliance : Option AllianceStation

abbrev pub default_driver_station : DriverStationState
default_driver_station = record {
  enabled = false;
  mode = teleop;
  e_stopped = false;
  alliance = blue1;
}

abbrev pub is_auto : DsMode → Bool
is_auto auto = true
is_auto _ = false

abbrev pub is_test : DsMode → Bool
is_test test = true
is_test _ = false

abbrev pub same_mode : DsMode → DsMode → Bool
same_mode auto auto = true
same_mode teleop teleop = true
same_mode test test = true
same_mode _ _ = false

abbrev pub station_value : AllianceStation → String
station_value red1 = "red1"
station_value red2 = "red2"
station_value red3 = "red3"
station_value blue1 = "blue1"
station_value blue2 = "blue2"
station_value blue3 = "blue3"

-- Names that every object inherits are taken for unknown stations.
unfoldable pub parse_station : Json → AllianceStation
parse_station (str s) =
    if s == "red1"
    then red1
    else if s == "red2"
    then red2
    else if s == "red3"
    then red3
    else if s == "blue2"
    then blue2
    else if s == "blue3"
    then blue3
    else blue1
parse_station _ = blue1

-- `value === b`
abbrev pub is_bool : Bool → Option Json → Bool
is_bool true (some (bool true)) = true
is_bool false (some (bool false)) = true
is_bool _ _ = false

unfoldable pub parse_ds_mode : Option Json → Option Json → DsMode → DsMode
parse_ds_mode autonomous tested current =
    if is_bool true tested
    then test
    else if is_bool true autonomous
    then auto
    else if is_bool false autonomous && is_bool false tested
    then teleop
    else current

abbrev or_next : Option Json → Option Json → Option Json
or_next none next = next
or_next (some v) next = some v

-- The four prefixes under which one name is looked up.
read_prefixed : Fields → String → Option Json
read_prefixed fs name = or_next (prop (String.◌++◌ "<>" name) fs) (
    or_next (prop (String.◌++◌ ">" name) fs)
      (or_next (prop (String.◌++◌ "<" name) fs) (prop name fs)))

unfoldable pub read_ds_field : Fields → List String → Option Json
unfolding read_prefixed prop
read_ds_field fs [] = none
read_ds_field fs (name ∷ names) = or_next (read_prefixed fs name) (read_ds_field fs names)

-- `typeof value === "boolean"`
abbrev as_bool : Option Json → Option Bool
as_bool (some (bool b)) = some b
as_bool _ = none

read_enabled : Option Bool → DriverStationState → DriverStationState
read_enabled none ds = ds
read_enabled (some b) ds = record ds { enabled = b }

read_mode : Option Json → Option Json → DriverStationState → DriverStationState
unfolding parse_ds_mode
read_mode autonomous tested ds =
    if is_some (as_bool autonomous) || is_some (as_bool tested)
    then record ds { mode = parse_ds_mode autonomous tested ds.mode }
    else ds

read_e_stop : Option Bool → DriverStationState → DriverStationState
read_e_stop none ds = ds
read_e_stop (some b) ds = record ds { e_stopped = b; enabled = if b then false else ds.enabled }

read_alliance : Option Json → DriverStationState → DriverStationState
unfolding parse_station
read_alliance none ds = ds
read_alliance (some v) ds = record ds { alliance = parse_station v }

-- The part of `handleMessage` that reads the `data` object.
unfoldable pub read_frame : Fields → DriverStationState → DriverStationState
unfolding read_enabled read_mode read_e_stop read_alliance read_ds_field
read_frame fs ds =
    let enabled = read_enabled (as_bool (read_ds_field fs ("enabled" ∷ []))) ds in
    let autonomous = read_ds_field fs ("autonomous" ∷ []) in
    let moded = read_mode autonomous (read_ds_field fs ("test" ∷ [])) enabled in
    let stopped = read_e_stop (as_bool (read_ds_field fs ("estop" ∷ "eStop" ∷ []))) moded in
    read_alliance (read_ds_field fs ("station" ∷ "allianceStationId" ∷ [])) stopped

-- What a listener does with a frame, up to the state of the connection.
pub data Reading : Type 0 where
  ignored : Reading
  type_error : Reading
  state : Fields → Reading

abbrev is_text : String → Option Json → Bool
is_text s (some (str t)) = t == s
is_text s _ = false

-- The `data` of a driver station message: an array passes for an object with none of the names,
-- and so does `null`, in which a look-up throws.
read_data : Option Json → Reading
read_data (some (obj fs)) = state fs
read_data (some (arr vs)) = state end
read_data (some null) = type_error
read_data _ = ignored

-- `handleMessage` up to the reading of `data`. `none` is a text that `JSON.parse` refuses.
unfoldable pub read_message : Option Json → Reading
unfolding prop read_data
read_message (some (obj fs)) =
    if is_text "DriverStation" (prop "type" fs) && is_text "" (prop "device" fs)
    then read_data (prop "data" fs)
    else ignored
read_message (some null) = type_error
read_message _ = ignored

abbrev new_data : Fields
new_data = field ">new_data" (bool true) end

abbrev Sends : Type 0
Sends = DriverStationState × List Fields

-- A mode change disables the robot first.
pub disable_for_mode : Option DsMode → DriverStationState → Sends
disable_for_mode none ds = (ds, [])
disable_for_mode (some m) ds =
    if not (same_mode m ds.mode) && ds.enabled
    then (record ds { enabled = false }, field ">enabled" (bool false) new_data ∷ [])
    else (ds, [])

pub set_mode : Option DsMode → DriverStationState → Sends
set_mode none ds = (ds, [])
set_mode (some m) ds = (
  record ds { mode = m },
  field ">autonomous" (bool (is_auto m)) (field ">test" (bool (is_test m)) new_data) ∷ [],
)

set_alliance : Option AllianceStation → DriverStationState → Sends
set_alliance none ds = (ds, [])
set_alliance (some a) ds =
    (record ds { alliance = a }, field ">station" (str (station_value a)) new_data ∷ [])

set_e_stop : Option Bool → DriverStationState → Sends
set_e_stop none ds = (ds, [])
set_e_stop (some b) ds = (
  record ds { e_stopped = b; enabled = if b then false else ds.enabled },
  field ">estop" (bool b) (if b then field ">enabled" (bool false) new_data else new_data) ∷ [],
)

set_enabled : Option Bool → DriverStationState → Sends
set_enabled none ds = (ds, [])
set_enabled (some b) ds =
    let on = b && not ds.e_stopped in
    (
      record ds { enabled = on },
      field ">enabled" (bool on) (
            field ">autonomous" (bool (is_auto ds.mode))
              (field ">test" (bool (is_test ds.mode)) new_data))
          ∷ [],
    )

abbrev and_then : Sends → (DriverStationState → Sends) → Sends
and_then (ds, sent) f = ((f ds).0, sent ++ (f ds).1)

-- The stages of `applyDriverStationPatch`, each on top of those before it.
pub moded : DriverStationPatch → DriverStationState → Sends
unfolding disable_for_mode set_mode
moded p ds = and_then (disable_for_mode p.mode ds) (set_mode p.mode)

pub stationed : DriverStationPatch → DriverStationState → Sends
unfolding moded set_alliance
stationed p ds = and_then (moded p ds) (set_alliance p.alliance)

pub stopped : DriverStationPatch → DriverStationState → Sends
unfolding stationed set_e_stop
stopped p ds = and_then (stationed p ds) (set_e_stop p.e_stopped)

-- The body of `applyDriverStationPatch` between its guard and its end: the next state, and the
-- frames in the order in which they are sent.
unfoldable pub apply_patch : DriverStationPatch → DriverStationState → Sends
unfolding stopped set_enabled
apply_patch p ds = and_then (stopped p ds) (set_enabled p.enabled)
