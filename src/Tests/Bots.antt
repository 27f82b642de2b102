-- ===== src/Tests/Bots.antt =====
-- CDummyClient of Source/Etc/TestPacketBot at concrete inputs.
use mmorpg_server.Base.{[], refl, ℕ, arith, true, ◌≡◌, false, if◌then◌else◌, List, ◌∷◌, ◌++◌}
use mmorpg_server.Common.Protocol.{read_login}
use mmorpg_server.Common.RecvBuffer.Laws.{IsValid, contents}
use mmorpg_server.Network.Receive.Frames.{split_frames}
use mmorpg_server.TestPacketBot.DummyClient.{
  Bot, Shared, login, playing, connecting, rolling_disconnect, disconnected, connected, no_stats,
  async_read, async_write, wait_latency, on_latency, on_connect, on_write_done, read_packets,
  is_disconnected, disconnect,
}
use mmorpg_server.TestPacketBot.DummyClient.Framing.{take_all, read_packets-split_frames}
use mmorpg_server.TestPacketBot.DummyClient.Login.{IsRequest, on_connect-read_login}
use mmorpg_server.TestPacketBot.DummyClient.Stuck.{on_connect-on_write_done, update_bot-unresolved}
use mmorpg_server.TestPacketBot.DummyClient.Updating.{Draws, update_bot}
use mmorpg_server.Tests.Server.{received, received-IsValid}

-- A bot that has waited for a second and comes back with the token 77
abbrev bot : Bot
bot = record {
  client_id = 4;
  my_usn = 5;
  bot_state = rolling_disconnect;
  connection_state = disconnected;
  server_session_id = 10;
  reconnect_token = 77;
  has_login_info = true;
  just_restored = true;
  connect_start_time = 0;
  disconnect_time = 1000;
  wait_duration = 1000;
  recv_buffer = received;
  send_buffer = [];
  send_size = 0;
  last_send_time = 0;
  next_send_time = 0;
  send_interval_ms = 300;
  enable_artificial_latency = false;
  stats = no_stats;
  tasks = [];
}

abbrev shared : Shared
shared = record {
  global_mass_drop_wakeup_time = 0;
  enable_random_rolling = true;
  active_client_count = 2;
  allow_broadcast = true;
}

abbrev playing_bot : Bot
playing_bot = record bot { bot_state = playing; connection_state = connected }

read_packets_example :
    let split = split_frames 3 (contents received) in
    let b' = take_all bot split.frames in
    (read_packets 3 bot shared ≡ (
      if split.is_broken
      then (false, (disconnect b' shared).0, (disconnect b' shared).1)
      else (true, b', shared)))
    × (contents b'.recv_buffer ≡ split.leftover)
    × IsValid b'.recv_buffer
read_packets_example = read_packets-split_frames 3 bot shared received-IsValid

-- With artificial latency, as in the load test
abbrev slow_bot : Bot
slow_bot = record bot { enable_artificial_latency = true }

on_connect_example :
    let b' = (on_connect false 7 2000 slow_bot shared).0 in
    (b'.bot_state ≡ login)
    × ((bytes : List ℕ) × (b'.tasks ≡ wait_latency ∷ async_read ∷ [])
        × ((on_latency false b').tasks ≡ b'.tasks ++ async_write bytes ∷ [])
        × IsRequest slow_bot (read_login bytes))
on_connect_example = on_connect-read_login 7 2000 slow_bot shared refl (omega arith) (omega arith)

-- A write of a login failed before.
abbrev unsent : Bot
unsent = record bot { send_size = 21 }

on_connect-on_write_done_example :
    let b' = (on_connect false 7 2000 (on_write_done true 0 unsent shared).0 shared).0 in
    (b'.bot_state ≡ login) × (b'.send_size ≡ 21) × (b'.tasks ≡ async_read ∷ [])
on_connect-on_write_done_example =
    on_connect-on_write_done 0 7 2000 unsent shared shared (omega arith)

abbrev pub draws : Draws
draws = record {
  first_rand = 0;
  second_rand = 0;
  move = record { x = 0; y = 0; velocity_x = 0; velocity_y = 0 };
  resolves = false;
}

update_bot-unresolved_example :
    let b' = (update_bot draws 2500 2500 bot shared).0 in
    (b'.bot_state ≡ connecting)
    × (is_disconnected b'.connection_state ≡ true)
    × (b'.tasks ≡ [])
    × (update_bot draws 9000 9000 b' shared ≡ (b', shared))
update_bot-unresolved_example =
    update_bot-unresolved draws draws 2500 9000 2500 9000 bot shared shared refl refl refl
      (omega arith)
