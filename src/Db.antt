-- ===== src/Db.antt =====
-- src/forgemaster/db: the tables that keep the blockages of a drain.
pub mod Alerts
pub mod Proposals
pub mod Outcomes
