-- ===== src/Coordinator.antt =====
-- apps/bot-coordinator.
pub mod Schedule
pub mod Dispatcher
pub mod Forwarding
pub mod Main
pub mod Examples
