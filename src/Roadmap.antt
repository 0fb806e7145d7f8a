-- ===== src/Roadmap.antt =====
-- src/forgemaster/roadmap: the rows of the roadmap, the adapter of the scheduling engine, the writes.
pub mod Rows
pub mod Resolver
pub mod Model
