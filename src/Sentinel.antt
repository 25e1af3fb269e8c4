-- ===== src/Sentinel.antt =====
-- The Sentinel agent: command validation and execution on the Windows machine (sentinel/src).
pub mod Keys
pub mod Config
pub mod Saving
pub mod Policy
pub mod Replay
pub mod Service
pub mod Http
pub mod Runtime
pub mod Agent
pub mod Start
pub mod Notify
