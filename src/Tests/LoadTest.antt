-- ===== src/Tests/LoadTest.antt =====
-- CLoadTestManager at concrete inputs.
use mmorpg_server.TestPacketBot.DummyClient.Updating.{
  connects, connect_done, is_in_progress, react, update_bot, update_in, update_login,
}
use mmorpg_server.TestPacketBot.LoadTestManager.{
  Manager, Config, new_manager, initialize_manager, stop_manager,
}
use mmorpg_server.TestPacketBot.LoadTestManager.Statistics.{get_aggregate_stats}
use mmorpg_server.TestPacketBot.LoadTestManager.Clients.{
  ClientConfig, new_clients, initial_shared, make_zombies, zombie_target, call_client, new_client,
  update_clients, visit,
}
use mmorpg_server.TestPacketBot.LoadTestManager.Orderly.{is_waiting}
use mmorpg_server.TestPacketBot.LoadTestManager.Fleet.{online, is_allowed_at}
use mmorpg_server.TestPacketBot.LoadTestManager.Reachable.{
  Call, Reachable, call, created, called, client_sees, updates_clients,
  get_aggregate_stats-Reachable,
}
use mmorpg_server.TestPacketBot.LoadTestManager.Setup.{IsReady, initialize_manager-IsReady}
use mmorpg_server.TestPacketBot.LoadTestManager.Stop.{trying, stop_manager-Reachable}
use mmorpg_server.Base.{
  refl, ℕ, some, arith, min, false, true, List, ◌≡◌, get_elem?, ◌+◌, ◌%◌, ◌^◌, leb, ◌*◌, ◌<◌,
}
use mmorpg_server.TestPacketBot.DummyClient.{
  Bot, Shared, connect, on_connect, do_read, send_login_packet, do_write, disconnect,
}
use mmorpg_server.TestPacketBot.LoadTestManager.Zombies.{gone, make_zombies_lem}
use mmorpg_server.TestPacketBot.LoadTestMain.{main_round, main_round-Reachable}
use mmorpg_server.TestPacketBot.LoadTestManager.{checked_count}
use mmorpg_server.Tests.Bots.{draws}

abbrev client_config : ClientConfig
client_config = record { send_interval_ms = 800; enable_artificial_latency = false }

abbrev config : Config
config = record { client_count = 6000; io_thread_count = 8; client_config = client_config }

abbrev zeros : ℕ → ℕ
zeros i = 0

abbrev running : Manager
running = record (new_manager config) { is_running = true; is_initialized = true }

abbrev clients : List Bot × Shared
clients = (new_clients zeros client_config 0 2, initial_shared)

-- Both clients of two start to connect, the first one succeeds, and there is an update.
abbrev first : Call
first = client_sees 0 (connects true) 10

abbrev second : Call
second = client_sees 1 (connects true) 11

abbrev first_connected : Call
first_connected = client_sees 0 (connect_done false 5) 12

abbrev update : Call
update = updates_clients 13 (λ i. draws) (λ i. 13)

abbrev fleet : List Bot × Shared
fleet = call update (call first_connected (call second (call first clients)))

first_possible : is_allowed_at 0 (connects true) clients.0 ≡ true
unfolding new_clients new_client
first_possible = refl

second_possible : is_allowed_at 1 (connects true) (call first clients).0 ≡ true
unfolding new_clients new_client call call_client react connect
second_possible = refl

connected_possible :
    is_allowed_at 0 (connect_done false 5) (call second (call first clients)).0 ≡ true
unfolding new_clients new_client call call_client react connect
connected_possible = refl

fleet_reached : Reachable zeros client_config 2 fleet
fleet_reached =
    called
      (called (called (called created first first_possible) second second_possible) first_connected
        connected_possible)
      update refl

get_aggregate_stats-Reachable_example :
    ((get_aggregate_stats 20 (record running { clients = fleet.0 })).connected_clients
      ≡ fleet.1.active_client_count)
    × ((k : ℕ) (b : Bot)
        → get_elem? fleet.0 k ≡ some b
        → is_in_progress b.connection_state ≡ true
        → is_waiting b.bot_state ≡ true)
get_aggregate_stats-Reachable_example =
    get_aggregate_stats-Reachable zeros client_config 2 20 running fleet (omega arith) fleet_reached

stop_manager-Reachable_example :
    let (m', sh') = stop_manager (record running { clients = fleet.0 }) fleet.1 in
    (online m'.clients ≡ 0)
    × (m'.is_running ≡ false)
    × (m'.is_initialized ≡ false)
    × ((sh'.active_client_count + trying fleet.0) % 2 ^ 64 ≡ 0)
    × (sh'.active_client_count ≡ 0 → trying fleet.0 ≡ 0)
stop_manager-Reachable_example =
    stop_manager-Reachable zeros client_config 2 running fleet (omega arith) fleet_reached refl

initialize_manager-IsReady_example :
    let r = initialize_manager zeros config (new_manager config) in
    (r.0 ≡ true) × IsReady r.1 × (initialize_manager zeros config r.1 ≡ (true, r.1))
initialize_manager-IsReady_example = initialize_manager-IsReady zeros zeros config config config

make_zombies_example :
    let r = make_zombies 30 0 fleet.0 fleet.1 in
    (r.0 ≡ min zombie_target (online fleet.0))
    × (online r.1 + r.0 ≡ online fleet.0)
    × (gone r.1 ≡ gone fleet.0 + r.0)
make_zombies_example = make_zombies_lem 30 fleet.0 fleet.1

-- The first client is connected and the second one is not yet.
fleet_online : (online fleet.0 ≡ 1) × (trying fleet.0 ≡ 1) × (fleet.1.active_client_count ≡ 1)
unfolding new_clients new_client call call_client react connect on_connect do_read send_login_packet
    do_write update_clients visit update_bot update_in update_login disconnect
fleet_online = (refl, refl, refl)

-- Of 20000 clients that are asked for, 10000 are made.
abbrev many : List Bot × Shared
many = (new_clients zeros client_config 0 (checked_count 20000), initial_shared)

main_round-Reachable_example :
    ((main_round 20000 false many.1).0 ≡ leb (20000 * 19) (online many.0 * 20))
    × (10526 < 20000 → main_round 20000 false many.1 ≡ (false, many.1))
main_round-Reachable_example = main_round-Reachable zeros client_config 20000 many created
