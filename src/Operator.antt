-- ===== src/Operator.antt =====
-- apps/benchmark-operator.
pub mod Examples
pub mod Types
pub mod Client
pub mod Flow
pub mod Pods
pub mod Recorded
pub mod Phases
pub mod Gate
pub mod Run
pub mod Sandbox
pub mod Resources
pub mod Main
