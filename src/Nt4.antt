-- ===== src/Nt4.antt =====
-- apps/control/src/nt4-auto.ts: the bridge to a simulation's NetworkTables server, which shows and
-- sets the choosers of autonomous routines. Number, MsgPack, Topics, Entry and Bridge hold the
-- definitions; Names, Tables, Announced and Values are about them.
pub mod Number
pub mod MsgPack
pub mod Topics
pub mod Names
pub mod Entry
pub mod Tables
pub mod Announced
pub mod Values
pub mod Bridge
