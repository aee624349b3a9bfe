-- ===== src/Child.antt =====
-- The process that keeps one target up to date: the file functions it calls, and its state.
pub mod Files
pub mod Folders
pub mod Moves
pub mod Handler
pub mod Calls
pub mod Jobs
pub mod Confined
pub mod Queued
pub mod NoFault
pub mod Visits
pub mod Backup
