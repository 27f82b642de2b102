-- ===== src/Tests/Server.antt =====
-- A small server for the tests: one session in the table, one socket.
use mmorpg_server.Base.{
  [], ℕ, arith, List, copy_to, ltb, none, if◌then◌else◌, false, ◌∷◌, ◌++◌, true, ◌==◌, some,
}
use mmorpg_server.Common.Types.{
  SessionState, send_queue_capacity, recv_buffer_size, initial_counters,
}
use mmorpg_server.Common.RecvBuffer.{RecvBuffer}
use mmorpg_server.Common.RecvBuffer.Laws as RecvLaws
use mmorpg_server.Common.MpscQueue.{MpscQueue}
use mmorpg_server.Common.MpscQueue.Refine as MpscRefine
use mmorpg_server.Common.PacketPool.{PacketPool}
use mmorpg_server.Network.Monitor.{initial_monitor}
use mmorpg_server.Network.World.{SocketState, Socket, Session, Registry, World, Env}

-- A packet of five bytes, and two bytes of the next
abbrev pub message : List ℕ
message = 5 ∷ 0 ∷ 1 ∷ 0 ∷ 9 ∷ []

abbrev pub received : RecvBuffer
received = record {
  data_ = copy_to (λ _. 0) 0 (message ++ 6 ∷ 0 ∷ []);
  capacity = recv_buffer_size;
  read_pos = 0;
  write_pos = 7;
}

pub received-IsValid : RecvLaws.IsValid received
received-IsValid = record { ordered = omega arith; within = omega arith; small = omega arith }

-- The packets 0 and 1 wait to be sent.
abbrev pub queue : MpscQueue ℕ send_queue_capacity
queue = record { head = 0; tail = 2; slots = λ i. ltb i 2; buffer = λ i. i }

pub queue-IsValid : MpscRefine.IsValid queue
queue-IsValid = record {
  ordered = omega arith;
  bounded = omega arith;
  unwrapped = omega arith;
  filled = λ i low high. ground arith;
  vacant = λ i low high. ground arith;
  positive = omega arith;
}

abbrev pub socket : Socket
socket = record {
  state = SocketState.connected;
  recv_buffer = received;
  send_queue = queue;
  send_batch = λ _. none;
  current_batch_size = 0;
  current_send_index = 0;
  session = none;
  session_id = 0;
  is_sending = false;
  is_open = true;
}

-- A player who waits for a reconnect
abbrev pub session : Session
session = record {
  owner_session_id = 20000;
  owner_account_id = 1;
  owner_thread_id = 0;
  owner_map_id = 0;
  usn = 1001;
  state = SessionState.temp_disconnect;
  socket = none;
  reconnect_token = record { token = 77; timestamp = 1 };
  disconnect_time = 5000;
  incoming_queue = record { head = 0; tail = 0; buffer = λ _. 0 };
  last_active_time = 5000;
}

abbrev pub pool : PacketPool
pool = record {
  buffers = λ b. record {
    data_ = λ _. 0;
    size = 0;
    protocol_id = 0;
    session_id = 0;
    is_allocated = ltb b 2;
  };
  next = 4;
  free_list = 2 ∷ 3 ∷ [];
  caches = [] ∷ [];
  pages = 4 ∷ [];
  total_buffer_size = 4;
  use_count = 2;
  max_use_count = 2;
}

-- The session stands in slot 0.
abbrev pub registry : Registry
registry = record {
  session_table = λ i. if i == 0 then some 0 else none;
  slot_used = λ i. i == 0;
  active_count = 1;
  rec_success = 0;
  rec_fail_not_found = 0;
  rec_fail_invalid_state = 0;
  rec_fail_token_mismatch = 0;
  rec_fail_expired = 0;
}

abbrev pub server : World
server = record {
  pool = pool;
  monitor = initial_monitor;
  sockets = λ _. socket;
  sessions = λ _. session;
  registry = registry;
  counters = initial_counters;
  network_stall_test = false;
  tasks = [];
}

abbrev pub thread_0 : Env
thread_0 = record { thread = 0; now = 6000 }
