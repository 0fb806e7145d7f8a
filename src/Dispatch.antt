-- ===== src/Dispatch.antt =====
-- src/forgemaster/dispatch: ports, worktrees, jobs and the dispatch loop.
pub mod Cost
pub mod Ports
pub mod Orchestrator
pub mod Jobs
pub mod Reconcile
pub mod Worker
pub mod Refix
pub mod Redrain
pub mod Worktree
pub mod Finalize
