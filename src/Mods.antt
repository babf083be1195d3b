-- ===== src/Mods.antt =====
-- The mods that a workspace depends on.
pub mod Lock
pub mod Require
pub mod Installer
