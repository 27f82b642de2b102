-- ===== src/TestPacketBot.antt =====
-- Source/Etc/TestPacketBot: the client of the load test and its manager.
pub mod DummyClient
pub mod LoadTestManager
pub mod LoadTestMain
