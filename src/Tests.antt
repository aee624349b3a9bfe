-- ===== src/Tests.antt =====
-- Runs on concrete inputs.
mod Texts
mod Lists
mod Child
mod Parent
mod Files
mod Confined
mod Restored
mod Checkpoint
mod Disk
mod Backup
mod Mirrors
