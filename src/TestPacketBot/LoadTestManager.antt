-- ===== src/TestPacketBot/LoadTestManager.antt =====
-- CLoadTestManager of Source/Etc/TestPacketBot/LoadTestManager.h and LoadTestManager.cpp: its
-- configuration and its pools of io threads. What is done to all the clients is in
-- `Clients`. The threads of `Start` make the calls of `Reachable`; the totals are in `Statistics`.
pub mod Clients
pub mod Setup
pub mod Orderly
pub mod Fleet
pub mod Reachable
pub mod Stop
pub mod Statistics
pub mod Zombies
use mmorpg_server.Threading.IoThreadPool.{IoThreadPool, new_io_thread_pool, start_io, stop_io}
use mmorpg_server.TestPacketBot.LoadTestManager.Clients.{
  ClientConfig, new_clients, disconnect_clients,
}
use mmorpg_server.Base.{
  [], refl, ℕ, none, some, arith, List, ◌∷◌, Bool, false, suc, if◌then◌else◌, ◌+◌, ◌/◌, add64,
  sub64, map, replicate, ◌%◌, ◌==◌, ◌-◌, true, not, ◌*◌, ltb, ◌||◌, ◌^◌, zero,
}
use mmorpg_server.TestPacketBot.DummyClient.{Bot, Shared, is_connected, reset_stats}

abbrev pub max_clients : ℕ
max_clients = 10000

abbrev pub clients_per_io_context : ℕ
clients_per_io_context = 2500

abbrev pub max_io_contexts : ℕ
max_io_contexts = 4

-- `FConfig`, without the address of the server, the latencies and the interval of the ramp
pub record Config : Type 0 where
  pub client_count : ℕ
  pub io_thread_count : ℕ
  pub client_config : ClientConfig

-- `clients` holds the first `ClientCount_` entries of `Clients_`, and `contexts` for each of them
-- the number of the pool that runs its handlers.
pub record Manager : Type 0 where
  pub config : Config
  pub is_running : Bool
  pub is_initialized : Bool
  pub io_thread_pools : List IoThreadPool
  pub io_context_count : ℕ
  pub clients : List Bot
  pub contexts : List ℕ
  pub start_time : ℕ
  pub last_stats_time : ℕ
  pub last_packets_sent : ℕ
  pub last_packets_received : ℕ
  pub last_bytes_sent : ℕ
  pub last_bytes_received : ℕ

abbrev pub new_manager : Config → Manager
new_manager config = record {
  config = config;
  is_running = false;
  is_initialized = false;
  io_thread_pools = replicate max_io_contexts new_io_thread_pool;
  io_context_count = 0;
  clients = [];
  contexts = [];
  start_time = 0;
  last_stats_time = 0;
  last_packets_sent = 0;
  last_packets_received = 0;
  last_bytes_sent = 0;
  last_bytes_received = 0;
}

-- The first pools are started; if one does not start, those before it are stopped.
unfoldable pub start_pools : ℕ → ℕ → List IoThreadPool → Bool × List IoThreadPool
start_pools zero threads pools = (true, pools)
start_pools (suc n) threads [] = (true, [])
start_pools (suc n) threads (p ∷ pools) =
    let (started, p') = start_io p threads in
    let (all, pools') = start_pools n threads pools in
    if not started
    then (false, p' ∷ pools)
    else if not all
    then (false, stop_io p' ∷ pools')
    else (true, p' ∷ pools')

unfoldable pub stop_pools : ℕ → List IoThreadPool → List IoThreadPool
stop_pools zero pools = pools
stop_pools (suc n) [] = []
stop_pools (suc n) (p ∷ pools) = stop_io p ∷ stop_pools n pools

-- The pools of the clients `i`, ..., `i + count - 1`
unfoldable pub client_contexts : ℕ → ℕ → ℕ → List ℕ
client_contexts io_context_count i zero = []
client_contexts io_context_count i (suc count) =
    i % io_context_count ∷ client_contexts io_context_count (suc i) count

unfoldable pub create_clients : (ℕ → ℕ) → Manager → Manager
create_clients garbage m = record m {
  clients = new_clients garbage m.config.client_config 0 m.config.client_count;
  contexts = client_contexts m.io_context_count 0 m.config.client_count;
}

abbrev pub checked_count : ℕ → ℕ
checked_count client_count =
    if (client_count == 0) || ltb max_clients client_count then max_clients else client_count

abbrev pub contexts_for : ℕ → ℕ
contexts_for client_count =
    let wanted = (client_count + clients_per_io_context - 1) / clients_per_io_context in
    if ltb max_io_contexts wanted then max_io_contexts else wanted

abbrev pub threads_for : ℕ → ℕ → ℕ
threads_for io_thread_count io_context_count =
    let share = io_thread_count / io_context_count in if share == 0 then 1 else share

unfoldable pub initialize_manager : (ℕ → ℕ) → Config → Manager → Bool × Manager
initialize_manager garbage config m =
    let client_count = checked_count config.client_count in
    let io_context_count = contexts_for client_count in
    let threads = threads_for config.io_thread_count io_context_count in
    let (started, pools) = start_pools io_context_count threads m.io_thread_pools in
    let m' = record m {
      config = record config { client_count = client_count };
      io_context_count = io_context_count;
      io_thread_pools = pools;
    } in
    if m.is_initialized
    then (true, m)
    else if not started
    then (false, m')
    else (true, record (create_clients garbage m') { is_initialized = true })

unfoldable pub start_manager : ℕ → Manager → Manager
start_manager now m =
    if not m.is_initialized
    then m
    else if m.is_running
    then m
    else record m { is_running = true; start_time = now; last_stats_time = now }

unfoldable pub stop_manager : Manager → Shared → Manager × Shared
stop_manager m sh =
    let (clients, sh') = disconnect_clients m.clients sh in
    if not m.is_running then (m, sh) else (
      record m {
        is_running = false;
        clients = clients;
        io_thread_pools = stop_pools m.io_context_count m.io_thread_pools;
        is_initialized = false;
      },
      sh',
    )

unfoldable pub destroy_clients : Manager → Manager
destroy_clients m = record m { clients = []; contexts = [] }
