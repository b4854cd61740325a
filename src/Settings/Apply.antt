-- ===== src/Settings/Apply.antt =====
-- The settings that the hub sends: internal/agentcore/settings_runtime.go, and who may send them, in
-- settings_ws_handler.go. The iteration over a Go map is a list in any order.
pub mod Config
pub mod Change
pub mod Cases
pub mod File
pub mod Batch
pub mod Kept
pub mod Local
pub mod Refused
pub mod Example
mod Tests
