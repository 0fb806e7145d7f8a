-- ===== src/Git.antt =====
-- src/forgemaster/git/internal.py: the git backend over a bare repository.
pub mod Sync
pub mod Reconcile
