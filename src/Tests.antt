-- ===== src/Tests.antt =====
-- Witnesses: the theorems at concrete sessions.
pub mod Setting
pub mod Connections
pub mod Options
pub mod Servers
pub mod Openings
pub mod Meetings
pub mod Scripts
pub mod Calls
