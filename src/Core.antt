-- ===== src/Core.antt =====
-- src/forgemaster/core: what every layer uses.
pub mod Ids
