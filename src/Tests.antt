-- ===== src/Tests.antt =====
-- The theorems at concrete inputs.
mod Overlap
mod Bots
mod LoadTest
mod Buffers
mod Framing
mod Program
mod Pool
mod SendPool
mod Queues
mod Registry
mod Server
mod Sockets
mod Threads
mod Ticks
