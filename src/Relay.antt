-- ===== src/Relay.antt =====
-- The Relay server: builds, signs and delivers commands (relay/src).
pub mod Config
pub mod Command
pub mod Random
pub mod Service
pub mod Transport
pub mod Http
pub mod Runtime
pub mod Start
