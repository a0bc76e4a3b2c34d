-- ===== src/Relay.antt =====
-- The relay server (relay/): devices register over WebSocket, and the relay forwards their messages
-- and tells them who is online.
pub mod Protocol
pub mod Registry
pub mod Net
pub mod Router
pub mod Presence
pub mod Handler
pub mod System
pub mod Main
mod Examples
mod LifeExamples
