-- ===== src/Network.antt =====
-- Source/Core/Network.
pub mod Listener
pub mod Drain
pub mod Monitor
pub mod Receive
pub mod Registry
pub mod Session
pub mod Socket
pub mod World
