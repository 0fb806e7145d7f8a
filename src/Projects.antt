-- ===== src/Projects.antt =====
-- src/forgemaster/projects: the work of the projects that nothing else holds.
pub mod Authority
