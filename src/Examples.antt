-- ===== src/Examples.antt =====
-- The theorems at concrete inputs, and runs of the code on small cases.
mod Ports
mod Decision
mod Alerts
mod Toolchain
mod Roadmap
mod Drain
mod Merge
mod Terminal
mod Review
mod Channel
mod Update
mod Cost
mod Outcomes
mod Vault
mod Back
mod Git
