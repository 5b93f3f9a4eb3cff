-- ===== src/Xray.antt =====
-- internal/xray: the proxy profiles, the link to the active one, and what replaces them.
pub mod Name
pub mod Store
pub mod Active
pub mod Migrate
pub mod Switch
pub mod Repair
pub mod Commit
pub mod Preserve
