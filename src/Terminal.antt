-- ===== src/Terminal.antt =====
-- src/forgemaster/terminal: the detachable sessions.
pub mod Session
