-- ===== src/Lib.antt =====
-- The server of an MMORPG: Source/Core (buffers, queues, sockets, sessions), its program
-- Source/Game and the load test Source/Etc/TestPacketBot. This library models the parts below.
--
-- How the parts interact. The program starts the pool of packets, the threads and a listener
-- (CListener), whose accepts become sockets; the callback gives a socket to the local thread
-- with the fewest sessions, as a command. An io thread reads bytes into the receive buffer of
-- a socket (CSocket) and cuts them into packets; each packet is copied into a buffer of the
-- packet pool and pushed to the incoming queue of the session (CGameSession) that the socket
-- is bound to. Threads that send push buffers to the send queue of the socket, and an io
-- thread writes them in batches. When a connection is lost, the session waits for ten seconds
-- for a reconnect, which the registry of sessions (CSessionManager) decides on. A local thread
-- (CLocalThread) owns a pool of sessions; in each tick it runs the commands of other threads,
-- handles the packets of its sessions, among them logins and moves that it sends on to others,
-- and removes the sessions that are closed or whose time is over. The network monitor counts
-- the connections that are closed and sets the limit of the send queues.
--
-- Base: tests, lists, C arrays, rings and machine words, shared by all files.
-- Common: Source/Core/Common. Types (Types.h); Fifo, SpscQueue and MpscQueue (LockFreeQueue.h,
-- with the contract of a bounded queue in Fifo; MpscQueue/Overlap has its overlapping calls);
-- RecvBuffer and SendBuffer (CRecvBuffer, CSendBuffer of Buffer.h and Buffer.cpp);
-- LockingStack and PacketPool (LockingStack, FPacketBuffer and CPacketBufferPool of the same
-- files); SendBufferPool (CSendBufferPool of the same files); Protocol (Protocol.h).
-- Network: Source/Core/Network. Monitor (NetworkMonitor.h); World, the state of all objects;
-- Drain, the loop that empties a queue of packets; Socket and Receive (Socket.h, Socket.cpp);
-- Session and Registry (CGameSession and CSessionManager of Session.h, Session.cpp); Listener
-- (Listener.h, Listener.cpp).
-- Threading: Source/Core/Threading. LocalThread (LocalThread.h, LocalThread.cpp), with its
-- Messages and Ticks, the clock of a thread in Timing; IoThreadPool (IOThreadPool.h,
-- IOThreadPool.cpp); ThreadManager (ThreadManager.h, ThreadManager.cpp).
-- Game: Source/Game/ServerMain.cpp. Connections follows a connection from the listener to its
-- session; Startup is the start with its roll back, and the end.
-- TestPacketBot: Source/Etc/TestPacketBot. DummyClient (DummyClient.h, DummyClient.cpp), with
-- `Update` and the events of a bot in Updating; LoadTestManager (LoadTestManager.h,
-- LoadTestManager.cpp), with its loops over the clients in Clients, its totals in Statistics
-- and the states of a fleet in Reachable; LoadTestMain (LoadTestMain.cpp).
-- Tests: the theorems at concrete inputs.
--
-- Names. A method Foo::BarBaz is bar_baz in the module of Foo; a state that a method changes
-- is an argument and a result. Where a name of the source is taken twice, the model's says
-- more: destroy_socket_now is the destructor of CSocket, process_send_queue_now is
-- ProcessSendQueue and process_send_queue the task that runs it, send_message is the
-- CGameSession::Send that takes bytes.
--
-- State. A pointer to an object is its number, the null pointer none. A World holds the pool,
-- the monitor, sockets, sessions, the registry and the tasks that were handed to asio and have
-- not run. A call of a method is one step: the atomics and locks of the source are not
-- interleaved, except in MpscQueue/Overlap, where each access of Push and Pop is a step and
-- the steps of the threads come in any order. An operation takes the thread that runs it and
-- the time as an Env.
--
-- Words. uint64_t and size_t wrap at 2 ^ 64 (add64, sub64) and uint16_t at 2 ^ 16. Where a
-- theorem needs an index not to wrap, it says so.
--
-- Fuel. drain runs for one round more than the capacity of the queue, which empties it;
-- handle_packet for a quarter of the bytes received and one, as each packet has at least four
-- bytes and so the loop ends before the rounds do; process_session_packets for one round more
-- than the capacity of the incoming queue. process_commands runs for a number of rounds
-- because other threads may add commands without end; a tick gives it one more than the
-- capacity of its queue. The other loops run over the slots of a table or the clients of the
-- load test.
--
-- rand() is a function from the number of the call, an argument of what calls it.
--
-- Not modelled: console output and crash dumps, asio itself, the memory of CSocket after its
-- destruction, and of Source/Etc/TestPacketBot/LoadTestMain.cpp the arguments and the signal
-- handler.
pub mod Base
pub mod Common
pub mod Game
pub mod Network
pub mod TestPacketBot
pub mod Tests
pub mod Threading
