-- ===== src/Server.antt =====
-- The HTTP service, package server under server/.
pub mod Render
pub mod Legacy
pub mod Filter
pub mod Guard
pub mod Limiter
pub mod Recorder
pub mod Handlers
pub mod Metrics
pub mod Stages
pub mod Pages
pub mod Router
pub mod Build
