-- ===== src/Threading.antt =====
-- Source/Core/Threading.
pub mod IoThreadPool
pub mod LocalThread
pub mod ThreadManager
