-- ===== src/TestPacketBot/LoadTestManager/Statistics.antt =====
-- The totals of CLoadTestManager: GetAggregateStats, ResetStats and what PrintStats remembers; its
-- output is left out.
use mmorpg_server.TestPacketBot.LoadTestManager.{Manager}
use mmorpg_server.Base.{[], ℕ, List, ◌∷◌, map, add64, sub64, if◌then◌else◌, ◌*◌, ltb, ◌%◌, ◌^◌, ◌/◌}
use mmorpg_server.TestPacketBot.DummyClient.{Bot, reset_stats, is_connected}

-- `FAggregateStats`, without the rate of the update loop, which is a `double`
pub record AggregateStats : Type 0 where
  pub total_packets_sent : ℕ
  pub total_packets_received : ℕ
  pub packets_per_second_sent : ℕ
  pub packets_per_second_recv : ℕ
  pub total_bytes_sent : ℕ
  pub total_bytes_received : ℕ
  pub bytes_per_second_sent : ℕ
  pub bytes_per_second_recv : ℕ
  pub connected_clients : ℕ
  pub total_connect_attempts : ℕ
  pub total_disconnects : ℕ
  pub elapsed_time_ms : ℕ
  pub try_reconnect : ℕ
  pub success_reconnect : ℕ
  pub new_login : ℕ

-- One client is added to the totals.
unfoldable pub add_client : AggregateStats → Bot → AggregateStats
add_client t b = record t {
  total_packets_sent = add64 t.total_packets_sent b.stats.packets_sent;
  total_packets_received = add64 t.total_packets_received b.stats.packets_received;
  total_bytes_sent = add64 t.total_bytes_sent b.stats.bytes_sent;
  total_bytes_received = add64 t.total_bytes_received b.stats.bytes_received;
  total_connect_attempts = add64 t.total_connect_attempts b.stats.connect_attempts;
  total_disconnects = add64 t.total_disconnects b.stats.disconnect_count;
  try_reconnect = add64 t.try_reconnect b.stats.try_reconnect_count;
  success_reconnect = add64 t.success_reconnect b.stats.success_reconnect_count;
  new_login = add64 t.new_login b.stats.new_login_count;
  connected_clients =
      if is_connected b.connection_state then add64 t.connected_clients 1 else t.connected_clients;
}

unfoldable pub add_clients : AggregateStats → List Bot → AggregateStats
add_clients t [] = t
add_clients t (b ∷ bots) = add_clients (add_client t b) bots

-- What `memset` leaves, but for the time
abbrev pub no_totals : ℕ → AggregateStats
no_totals elapsed = record {
  total_packets_sent = 0;
  total_packets_received = 0;
  packets_per_second_sent = 0;
  packets_per_second_recv = 0;
  total_bytes_sent = 0;
  total_bytes_received = 0;
  bytes_per_second_sent = 0;
  bytes_per_second_recv = 0;
  connected_clients = 0;
  total_connect_attempts = 0;
  total_disconnects = 0;
  elapsed_time_ms = elapsed;
  try_reconnect = 0;
  success_reconnect = 0;
  new_login = 0;
}

abbrev pub per_second : ℕ → ℕ → ℕ → ℕ
per_second total last time_delta = (sub64 total last * 1000 % 2 ^ 64) / time_delta

unfoldable pub get_aggregate_stats : ℕ → Manager → AggregateStats
get_aggregate_stats now m =
    let stats = add_clients (no_totals (sub64 now m.start_time)) m.clients in
    let time_delta = sub64 now m.last_stats_time in
    if ltb 0 time_delta
    then record stats {
      packets_per_second_sent = per_second stats.total_packets_sent m.last_packets_sent time_delta;
      packets_per_second_recv =
          per_second stats.total_packets_received m.last_packets_received time_delta;
      bytes_per_second_sent = per_second stats.total_bytes_sent m.last_bytes_sent time_delta;
      bytes_per_second_recv =
          per_second stats.total_bytes_received m.last_bytes_received time_delta;
    }
    else stats

unfoldable pub reset_manager_stats : ℕ → Manager → Manager
reset_manager_stats now m = record m {
  clients = map reset_stats m.clients;
  start_time = now;
  last_stats_time = now;
  last_packets_sent = 0;
  last_packets_received = 0;
  last_bytes_sent = 0;
  last_bytes_received = 0;
}

-- The time is read once by `GetAggregateStats` and once more by `PrintStats`.
unfoldable pub print_stats : ℕ → ℕ → Manager → Manager
print_stats now later m =
    let stats = get_aggregate_stats now m in
    record m {
      last_packets_sent = stats.total_packets_sent;
      last_packets_received = stats.total_packets_received;
      last_bytes_sent = stats.total_bytes_sent;
      last_bytes_received = stats.total_bytes_received;
      last_stats_time = later;
    }
