-- ===== src/Gateway.antt =====
-- apps/fairness-gateway.
pub mod Examples
pub mod Proto
pub mod TimeService
pub mod Stamper
pub mod Identity
pub mod Fork
pub mod Server
pub mod Config
pub mod Main
pub mod FileSink
