-- ===== src/Lib.antt =====
-- CodeRunner gives each student a workspace with a robot project. The control server starts and
-- stops the simulation of a workspace (apps/control/src/runs.ts), keeps a WebSocket to the
-- simulator of each (apps/control/src/halsim.ts on apps/control/src/ws-bridge.ts), sets the driver
-- station through it, and passes on the joystick frames of a player's browser
-- (apps/control/src/gamepad.ts). A second WebSocket to each simulator shows the autonomous routines
-- and selects one (apps/control/src/nt4-auto.ts). The browser maps keys and controllers to joystick frames
-- (apps/web/src/lib/keyboard-mapping.ts and gamepad-mapping.ts beside it).
--
-- Files:
-- - Prelude: library names, Boolean tests, texts as lists of code units, Map and Set as lists in
--   insertion order.
-- - Json: the values that JSON.parse returns and JSON.stringify takes.
-- - DriverStation: `apply_patch` is the part of applyDriverStationPatch that computes the new state
--   and the frames; `read_message` and `read_frame` are handleMessage. Safety and Echo have its
--   properties.
-- - HalSim: ReconnectingWsBridge and HalSimBridge. Entries and sockets are on a heap, since
--   listeners and timers keep hold of them. HalSim/Calls has the public calls, HalSim/Events the
--   listeners, the timer and `step`, one event at a time. Invariant, Backoff, Patch, Refusal and
--   Release have its properties.
-- - Gamepad: GamepadSessions, in front of the bridge. Frames and Release have its properties.
-- - Runs: RunManager. Runs/Lines is consumeLines with the tests on a line, Runs/Jobs the public
--   calls, Runs/Life the asynchronous runJob, timeoutBeforeReadiness and recordLog, cut at each
--   `await` into the events between them. Invariant, Ending and Current have its properties.
-- - Allowlist: apps/control/src/auth/allowlist.ts, who may sign in. Represents compares it with two
--   sets, Overlap lets calls overlap; Members and Normal have the lemmas.
-- - Classrooms: FailedAttemptLimiter and reserveGuestSlot of apps/control/src/classrooms.ts. Limiter
--   and Slots have its properties; Slots has the joins of one classroom as events in any order.
--   Classrooms/Cleanup is the life of one classroom up to its cleanup, with
--   apps/control/src/classroom-sweeper.ts; Tidy and Cleaned have its properties.
--   Classrooms/Codes is createClassroom on the table's rows; Distinct has its properties.
-- - PreviewToken: apps/control/src/app/preview-token.ts, with the HMAC as a parameter. RoundTrip has
--   its property.
-- - Ports: allocatePortFromRange of apps/control/src/containers/ports.ts. Choice has its properties.
-- - Nt4: apps/control/src/nt4-auto.ts. Nt4/Number has its numbers, Nt4/MsgPack encodeMsgPack and
--   decodeMsgPack, Nt4/Topics the names, values and choosers, Nt4/Entry handleMessage, Nt4/Bridge
--   the class with its calls and, in Nt4/Bridge/Calls, `select` and the listeners. The other files
--   there have their properties.
-- - Keyboard: the mapping of keys to joystick states. Mapped and RoundTrip have its properties.
--
-- How the model reads the code: ids of workspaces, connections, runs, entries and sockets are
-- numbers, since only their equality is used; a new id is one that was never used. Time is a number
-- that the events carry. Events come in any order, also in some that the runtime would not produce.
-- A call or a listener that throws keeps what it had changed before. Creating a socket does not
-- throw. A JavaScript number is a whole one, given as such, or the bits of another; text is a list
-- of code units. The stack of the decoder's recursion has no bound; its fuel is the length of the
-- frame and one more, for each value takes a byte. `none` for the choosers, and `endless`, stand
-- for a loop that does not end. What JSON.parse returns for a frame is given, with `none` where it
-- throws. Names that every object inherits are no stations. A run's row is made before its job, and
-- may be deleted with its user (apps/control/src/user-deletion.ts) at any time, after which writing
-- to it throws. A call whose promise nobody waits for may throw, and the server goes on. The line
-- that a run's error is written as does not look like readiness. A socket may be closing or closed
-- before its close listener is called. Each call of the allowlist that waits for the file is cut
-- there: `begin_add`, `begin_remove` and `end_save` come in any order in Allowlist/Overlap; the
-- comparison with two sets is about calls that do not overlap. Lines that recordLog itself writes
-- for an error or a timeout are log events of their own. `drain` takes as fuel the length of the
-- buffer and one more, which is enough, since each round removes a line break. `decimal` has fuel
-- for five digits, as a port has.
--
-- Not modelled: logging, the running-time metrics, log files, the text of the run script, the
-- database beyond run_jobs, the rounding of analogue controller values, and the components that
-- these files do not name: the other functions of classrooms, containers, routes,
-- previews, imports, the rest of authentication and the web interface.
pub mod Allowlist
pub mod Classrooms
pub mod Prelude
pub mod Json
pub mod DriverStation
pub mod HalSim
pub mod Gamepad
pub mod Keyboard
pub mod Nt4
pub mod Ports
pub mod PreviewToken
pub mod Runs
