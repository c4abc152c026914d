-- ===== src/Builder.antt =====
-- apps/build-runner.
pub mod Paths
pub mod Config
pub mod Compile
pub mod Image
pub mod Start
pub mod Extract
pub mod Runner
pub mod Examples
