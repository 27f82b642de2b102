-- ===== src/TestPacketBot/DummyClient.antt =====
-- CDummyClient of Source/Etc/TestPacketBot/DummyClient.h and DummyClient.cpp, but for `Update`
-- (`Updating`). What asio and the random generators answer is an argument, and the time does not go
-- on during a call. A float is its 32-bit pattern.
pub mod Updating
pub mod Unchanged
pub mod Counting
pub mod Framing
pub mod Login
pub mod Stuck
use mmorpg_server.Base.{
  [], ℕ, none, some, arith, Bool, List, ◌++◌, if◌then◌else◌, add64, ◌%◌, true, ◌∷◌, not, sub64,
  ◌&&◌, ◌^◌, ltb, ◌==◌, ◌/◌, false, suc, ◌+◌, zero,
}
use mmorpg_server.Common.Types.{packet_header_size, max_packet_size, PacketHeader}
use mmorpg_server.Common.RecvBuffer.{RecvBuffer, data_size, free_size, on_write, on_read, clean}
use mmorpg_server.Common.Protocol.{
  initialize_login, login_to_bytes, login_packet_size, initialize_move, move_to_bytes,
  move_packet_size, read_login_response, login_response_packet_size, pkt_login_res,
}
use mmorpg_server.Network.Receive.{Frame, stop, invalid, packet_of, next_frame, readable}

-- `EBotState`, with the constructor for `None` named `unstarted`
pub data BotState : Type 0 where
  unstarted connecting login playing rolling_disconnect mass_dropping zombie_dead : BotState

pub data ConnectionState : Type 0 where
  disconnected in_progress connected closing : ConnectionState

abbrev pub is_connected : ConnectionState → Bool
is_connected connected = true
is_connected _ = false

abbrev pub is_disconnected : ConnectionState → Bool
is_disconnected disconnected = true
is_disconnected _ = false

-- What has been handed to asio; its handler runs later, with an error if the socket was closed.
pub data Task : Type 0 where
  async_connect async_read wait_latency : Task
  async_write : List ℕ → Task

pub record Stats : Type 0 where
  pub packets_sent : ℕ
  pub packets_received : ℕ
  pub bytes_sent : ℕ
  pub bytes_received : ℕ
  pub connect_attempts : ℕ
  pub disconnect_count : ℕ
  pub try_reconnect_count : ℕ
  pub success_reconnect_count : ℕ
  pub new_login_count : ℕ

-- `send_buffer` holds the `SendSize` bytes that count. The addresses of the server are left out.
pub record Bot : Type 0 where
  pub client_id : ℕ
  pub my_usn : ℕ
  pub bot_state : BotState
  pub connection_state : ConnectionState
  pub server_session_id : ℕ
  pub reconnect_token : ℕ
  pub has_login_info : Bool
  pub just_restored : Bool
  pub connect_start_time : ℕ
  pub disconnect_time : ℕ
  pub wait_duration : ℕ
  pub recv_buffer : RecvBuffer
  pub send_buffer : List ℕ
  pub send_size : ℕ
  pub last_send_time : ℕ
  pub next_send_time : ℕ
  pub send_interval_ms : ℕ
  pub enable_artificial_latency : Bool
  pub stats : Stats
  pub tasks : List Task

-- The static members
pub record Shared : Type 0 where
  pub global_mass_drop_wakeup_time : ℕ
  pub enable_random_rolling : Bool
  pub active_client_count : ℕ
  pub allow_broadcast : Bool

abbrev pub post : Bot → Task → Bot
post b task = record b { tasks = b.tasks ++ task ∷ [] }

abbrev pub no_stats : Stats
no_stats = record {
  packets_sent = 0;
  packets_received = 0;
  bytes_sent = 0;
  bytes_received = 0;
  connect_attempts = 0;
  disconnect_count = 0;
  try_reconnect_count = 0;
  success_reconnect_count = 0;
  new_login_count = 0;
}

unfoldable pub reset_stats : Bot → Bot
reset_stats b = record b { stats = no_stats }

-- `resolves` is whether the name of the server has an address.
unfoldable pub connect : Bool → Bot → Bot
connect resolves b =
    let trying = record b {
      stats = record b.stats { connect_attempts = add64 b.stats.connect_attempts 1 };
    } in
    if not (is_disconnected b.connection_state)
    then b
    else if not resolves
    then trying
    else post (record trying { connection_state = in_progress }) async_connect

unfoldable pub connect_to_server : Bool → ℕ → Bot → Bool × Bot
connect_to_server resolves now b =
    if not (is_disconnected b.connection_state)
    then (false, b)
    else (true, record (connect resolves b) { connect_start_time = now })

unfoldable pub disconnect : Bot → Shared → Bot × Shared
disconnect b sh = if is_disconnected b.connection_state then (b, sh) else (
  record b {
    connection_state = disconnected;
    stats = record b.stats { disconnect_count = add64 b.stats.disconnect_count 1 };
  },
  record sh { active_client_count = sub64 sh.active_client_count 1 },
)

unfoldable pub set_test_mode : BotState → ℕ → Bot → Shared → Bot × Shared
set_test_mode mass_dropping now b sh =
    let (b', sh') = disconnect b sh in
    (
      record b' { bot_state = mass_dropping },
      record sh' { global_mass_drop_wakeup_time = add64 now 3000 },
    )
set_test_mode zombie_dead now b sh =
    let (b', sh') = disconnect b sh in (record b' { bot_state = zombie_dead }, sh')
set_test_mode unstarted now b sh = (b, sh)
set_test_mode connecting now b sh = (b, sh)
set_test_mode login now b sh = (b, sh)
set_test_mode playing now b sh = (b, sh)
set_test_mode rolling_disconnect now b sh = (b, sh)

unfoldable pub do_write : Bot → Bot
do_write b =
    if not (is_connected b.connection_state)
    then b
    else if b.send_size == 0
    then b
    else if b.enable_artificial_latency
    then post b wait_latency
    else post b (async_write b.send_buffer)

-- The handler of the latency timer
unfoldable pub on_latency : Bool → Bot → Bot
on_latency error b =
    if not error && is_connected b.connection_state then post b (async_write b.send_buffer) else b

unfoldable pub on_write_done : Bool → ℕ → Bot → Shared → Bot × Shared
on_write_done error bytes_transferred b sh = if error then disconnect b sh else (
  record b {
    stats = record b.stats {
      bytes_sent = add64 b.stats.bytes_sent bytes_transferred;
      packets_sent = add64 b.stats.packets_sent 1;
    };
    send_size = 0;
  },
  sh,
)

-- The token that is sent: the one that the server gave, if this is a reconnect and there is one
unfoldable pub token_to_send : Bool → Bot → ℕ
token_to_send is_reconnect b = if is_reconnect && b.has_login_info then b.reconnect_token else 0

unfoldable pub send_login_packet : Bool → Bot → Bot
send_login_packet is_reconnect b =
    let trying =
      if is_reconnect
      then record b {
        just_restored = true;
        stats = record b.stats { try_reconnect_count = add64 b.stats.try_reconnect_count 1 };
      }
      else b in
    let packet = initialize_login b.my_usn (token_to_send is_reconnect b) is_reconnect in
    if ltb 0 b.send_size
    then b
    else do_write
        (record trying { send_buffer = login_to_bytes packet; send_size = login_packet_size })

-- The position and the velocity that the generator draws
pub record Move : Type 0 where
  pub x : ℕ
  pub y : ℕ
  pub velocity_x : ℕ
  pub velocity_y : ℕ

unfoldable pub send_move_packet : Move → ℕ → Bot → Bot
send_move_packet m now b =
    let packet = initialize_move b.client_id m.x m.y m.velocity_x m.velocity_y (now % 2 ^ 32) in
    if ltb 0 b.send_size
    then b
    else do_write (record b {
      just_restored = false;
      send_buffer = move_to_bytes packet;
      send_size = move_packet_size;
      last_send_time = now;
    })

unfoldable pub do_read : Bot → Bot
do_read b =
    let buffer =
      if ltb (free_size b.recv_buffer) max_packet_size
      then clean b.recv_buffer
      else b.recv_buffer in
    if not (is_connected b.connection_state)
    then b
    else post (record b { recv_buffer = buffer }) async_read

-- Whether `OnConnect` asks for its old session
abbrev pub is_reconnect_state : BotState → Bool
is_reconnect_state connecting = true
is_reconnect_state rolling_disconnect = true
is_reconnect_state mass_dropping = true
is_reconnect_state _ = false

-- `OnConnect` with an error, by the state of the bot
unfoldable pub connect_failed : BotState → ℕ → Bot → Shared → Bot × Shared
connect_failed mass_dropping now b sh =
    (b, record sh { global_mass_drop_wakeup_time = add64 now 100 })
connect_failed rolling_disconnect now b sh =
    (record b { wait_duration = add64 b.wait_duration 1000 }, sh)
connect_failed unstarted now b sh = (record b { bot_state = unstarted }, sh)
connect_failed connecting now b sh = (record b { bot_state = unstarted }, sh)
connect_failed login now b sh = (record b { bot_state = unstarted }, sh)
connect_failed playing now b sh = (record b { bot_state = unstarted }, sh)
connect_failed zombie_dead now b sh = (record b { bot_state = unstarted }, sh)

-- `random` is what `Rng()` returns; the interval is not 0.
unfoldable pub on_connect : Bool → ℕ → ℕ → Bot → Shared → Bot × Shared
on_connect error random now b sh =
    let online = record b {
      connection_state = connected;
      connect_start_time = now;
      last_send_time = now;
      next_send_time = add64 (add64 now b.send_interval_ms) (random % b.send_interval_ms);
    } in
    if error
    then connect_failed b.bot_state now (record b { connection_state = disconnected }) sh
    else (
      do_read (record (send_login_packet (is_reconnect_state b.bot_state) online) {
        bot_state = login;
      }),
      record sh { active_client_count = add64 sh.active_client_count 1 },
    )

-- What a login that succeeded says of a reconnect
unfoldable pub count_login : ℕ → Bot → Bot
count_login token b =
    let stats = b.stats in
    if not b.just_restored
    then b
    else if not (b.reconnect_token == 0) && b.reconnect_token == token
    then record b {
      stats = record stats { success_reconnect_count = add64 stats.success_reconnect_count 1 };
    }
    else record b { stats = record stats { new_login_count = add64 stats.new_login_count 1 } }

unfoldable pub on_login_response : List ℕ → ℕ → Bot → Bot
on_login_response bytes size b =
    let packet = read_login_response bytes in
    if ltb size login_response_packet_size
    then b
    else if not packet.success
    then b
    else record (count_login packet.token b) {
      server_session_id = packet.session_id;
      reconnect_token = packet.token;
      has_login_info = true;
      bot_state = playing;
    }

-- A whole packet in the buffer: it is handled, counted and consumed.
unfoldable pub take_packet : PacketHeader → Bot → Bot
take_packet header b =
    let b' =
      if header.protocol_id == pkt_login_res
      then on_login_response (readable b.recv_buffer header.size) header.size b
      else b in
    record b' {
      stats = record b'.stats { packets_received = add64 b'.stats.packets_received 1 };
      recv_buffer = (on_read b'.recv_buffer header.size).1;
    }

-- The loop of `OnRead` for a number of rounds; its tests are those of the server's `HandlePacket`.
-- The flag is false if the loop has returned from `OnRead`.
unfoldable pub read_packets : ℕ → Bot → Shared → Bool × Bot × Shared
read_packets zero b sh = (true, b, sh)
read_packets (suc rounds) b sh = elim (next_frame b.recv_buffer) [
  | stop ↦ (true, b, sh)
  | invalid ↦ let (b', sh') = disconnect b sh in (false, b', sh')
  | packet_of header ↦ read_packets rounds (take_packet header b) sh
]

-- The bytes that were read stand in the buffer already; the result of `OnWrite` is not looked at.
unfoldable pub on_read_done : Bool → ℕ → Bot → Shared → Bot × Shared
on_read_done error bytes_transferred b sh =
    let got = record b {
      recv_buffer = (on_write b.recv_buffer bytes_transferred).1;
      stats = record b.stats { bytes_received = add64 b.stats.bytes_received bytes_transferred };
    } in
    if error
    then disconnect b sh
    else let (goes_on, b', sh') =
        read_packets (data_size got.recv_buffer / packet_header_size + 1) got sh in
      (if goes_on then do_read b' else b', sh')
