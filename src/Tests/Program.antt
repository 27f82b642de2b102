-- ===== src/Tests/Program.antt =====
-- The listener and the program of Source/Game/ServerMain.cpp at concrete inputs.
use mmorpg_server.Base.{
  [], refl, ℕ, some, arith, true, ◌+◌, ◌≡◌, List, false, ltb, suc, ◌<◌, ◌⊎◌, ◌∷◌, if◌then◌else◌,
  length, ◌^◌, ◌==◌,
}
use mmorpg_server.Common.MpscQueue.{new_mpsc_queue}
use mmorpg_server.Common.MpscQueue.Refine as Refine
use mmorpg_server.Network.Socket
use mmorpg_server.Network.Listener.{
  SocketPool, Listener, AcceptResult, start_listener, set_connection_handler, new_listener,
  accepted, accept_error, on_accepts, AcceptorResults,
}
use mmorpg_server.Network.Listener.Accepting.{on_accepts_lem, outcome}
use mmorpg_server.Threading.IoThreadPool.{new_io_thread_pool, start_io}
use mmorpg_server.Threading.LocalThread.{
  LocalThread, Command, no_command, shutdown, remove_session_of, command_queue_capacity,
  new_local_thread, allocate_session, first_unused,
}
use mmorpg_server.Threading.LocalThread.Commands.{process_commands_ends, after_shutdown}
use mmorpg_server.Threading.LocalThread.Creation.{IsServed}
use mmorpg_server.Threading.LocalThread.Ticks.{process_commands}
use mmorpg_server.Common.PacketPool as PacketPool
use mmorpg_server.Threading.ThreadManager.Running.{HasNoThreads}
use mmorpg_server.Threading.ThreadManager.{
  initialize, ThreadManager, get_least_loaded_local_thread, least_loaded_from,
}
use mmorpg_server.Game.{Program, default_config, on_new_connection, start_server, stop_server}
use mmorpg_server.Game.Connections.{
  HasQueues, Routed, Refused, commands, on_new_connection_lem, connection-IsServed,
}
use mmorpg_server.Game.Startup.{IsUp, IsDown, start_server_lem}
use mmorpg_server.Tests.Server.{server, thread_0}

abbrev manager : ThreadManager
manager = record {
  is_running = true;
  io_thread_pool = new_io_thread_pool;
  local_threads = λ i. record new_local_thread { owner_thread_id = i; is_running = true };
  local_thread_count = 2;
  next_thread_index = 0;
}

abbrev program : Program
program = record { manager = manager; world = server }

new_queue-IsValid : Refine.IsValid {A = Command} (new_mpsc_queue command_queue_capacity no_command)
unfolding new_mpsc_queue
new_queue-IsValid = record {
  ordered = omega arith;
  bounded = omega arith;
  unwrapped = omega arith;
  filled = λ i low high. absurd (omega (arith, low, high));
  vacant = λ i low high. refl;
  positive = omega arith;
}

new_queue_tail : (new_mpsc_queue {A = Command} command_queue_capacity no_command).tail + 1 < 2 ^ 64
unfolding new_mpsc_queue
new_queue_tail = omega arith

manager-HasQueues : HasQueues manager
manager-HasQueues = record { valid = λ i. new_queue-IsValid; unwrapped = λ i. new_queue_tail }

manager_chooses : get_least_loaded_local_thread manager ≡ some 0
unfolding get_least_loaded_local_thread least_loaded_from
manager_chooses = refl

manager_waits : commands manager 0 ≡ []
unfolding new_mpsc_queue
manager_waits = refl

manager_allocates : (allocate_session (manager.local_threads 0)).0 ≡ some 0
unfolding allocate_session first_unused
manager_allocates = refl

on_new_connection_example :
    (Routed manager 5 (on_new_connection thread_0 program (some 5)).manager
      × ((on_new_connection thread_0 program (some 5)).world ≡ server))
    ⊎ (((on_new_connection thread_0 program (some 5)).world
          ≡ Socket.destroy_socket_now thread_0 server 5)
        × Refused manager (on_new_connection thread_0 program (some 5)).manager)
on_new_connection_example = on_new_connection_lem thread_0 program 5 manager-HasQueues

connection-IsServed_example :
    let s' = on_new_connection thread_0 program (some 5) in
    IsServed 0 server
      (process_commands 1025 (λ n. n) thread_0 (s'.manager.local_threads 0) s'.world).1
      0
      5
connection-IsServed_example =
    connection-IsServed (λ n. n) thread_0 program 5 0 0 manager-HasQueues manager_chooses
      (omega arith) manager_waits manager_allocates

-- A program that keeps the list of its sockets
abbrev plain_sockets : SocketPool (List ℕ)
plain_sockets = record { create_socket = λ s socket. socket ∷ s; destroy_socket = λ s socket. [] }

abbrev listener : Listener (List ℕ)
listener = record {
  port = 9000;
  is_running = true;
  accept_count = 0;
  reject_count = 0;
  callback = some (λ s socket. s);
  acceptor_is_open = true;
  pending_accepts = 1;
}

abbrev results : List AcceptResult
results = accepted 7 ∷ accept_error ∷ accepted 8 ∷ []

on_accepts_example :
    on_accepts plain_sockets results listener [] ≡ outcome plain_sockets results listener []
on_accepts_example =
    on_accepts_lem plain_sockets results listener [] refl refl (omega arith) (omega arith)

-- The port is taken.
abbrev taken_port : AcceptorResults
taken_port = record { opens = true; sets_option = true; binds = false; listens = true }

-- A server that has not been started
abbrev stopped : ThreadManager
stopped = record {
  is_running = false;
  io_thread_pool = new_io_thread_pool;
  local_threads = λ _. new_local_thread;
  local_thread_count = 0;
  next_thread_index = 0;
}

stopped-HasNoThreads : HasNoThreads stopped
stopped-HasNoThreads = record { off = refl; io_off = refl; local_off = λ i. refl }

-- The port is free.
abbrev free_port : AcceptorResults
free_port = record { opens = true; sets_option = true; binds = true; listens = true }

abbrev at_rest : Program
at_rest = record program { manager = stopped }

start_server_example :
    let out = start_server free_port thread_0 default_config at_rest in
    (out.0 ≡ true → IsUp out.1 × IsDown (stop_server thread_0 out.1))
    × (out.0 ≡ false → IsDown out.1)
start_server_example =
    start_server_lem free_port thread_0 default_config at_rest stopped-HasNoThreads refl

start_server_free : (start_server free_port thread_0 default_config at_rest).0 ≡ true
unfolding start_server start_listener set_connection_handler new_listener initialize start_io
    PacketPool.initialize
start_server_free = refl

start_server_taken : (start_server taken_port thread_0 default_config at_rest).0 ≡ false
unfolding start_server start_listener set_connection_handler new_listener initialize start_io
    PacketPool.initialize
start_server_taken = refl

-- Two commands behind a shutdown
abbrev waiting : List Command
waiting = no_command ∷ shutdown ∷ remove_session_of 3 ∷ []

abbrev busy : LocalThread
busy = record new_local_thread {
  command_queue = record {
    head = 0;
    tail = 3;
    slots = λ i. ltb i 3;
    buffer = λ i. if i == 0 then no_command else if i == 1 then shutdown else remove_session_of 3;
  };
}

busy-IsValid : Refine.IsValid busy.command_queue
busy-IsValid = record {
  ordered = omega arith;
  bounded = omega arith;
  unwrapped = omega arith;
  filled = λ i low high. ground arith;
  vacant = λ i low high. ground arith;
  positive = omega arith;
}

process_commands_ends_example :
    (process_commands (suc (length waiting + 5)) (λ n. n) thread_0 busy server
      ≡ process_commands (suc (length waiting)) (λ n. n) thread_0 busy server)
    × (Refine.contents
          (process_commands (suc (length waiting)) (λ n. n) thread_0 busy server).0.command_queue
        ≡ after_shutdown waiting)
process_commands_ends_example =
    process_commands_ends waiting (λ n. n) thread_0 busy server 5 busy-IsValid refl
