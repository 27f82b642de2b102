-- ===== src/Common.antt =====
-- Source/Core/Common: constants and ids, packet layouts, the byte buffers, the lock-free queues
-- and the buffer pools.
pub mod Types
pub mod Fifo
pub mod Protocol
pub mod LockingStack
pub mod PacketPool
pub mod RecvBuffer
pub mod SendBuffer
pub mod SendBufferPool
pub mod SpscQueue
pub mod MpscQueue
