-- ===== src/Gate.antt =====
-- src/forgemaster/gate: the merge gate, its tiers and the merge itself.
pub mod Statuses
pub mod Decision
pub mod Toolchain
pub mod Merge
pub mod Review
