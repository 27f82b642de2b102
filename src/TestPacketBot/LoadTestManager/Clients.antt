-- ===== src/TestPacketBot/LoadTestManager/Clients.antt =====
-- What CLoadTestManager of Source/Etc/TestPacketBot/LoadTestManager.cpp does to all its clients.
-- `sh` holds their static members, `n` or `i` is the number of the first client of the list.
use mmorpg_server.Common.Types.{max_sim_players, recv_buffer_size}
use mmorpg_server.Common.RecvBuffer.{new_recv_buffer}
use mmorpg_server.TestPacketBot.DummyClient.Updating.{Draws, update_bot}
use mmorpg_server.Base.{
  [], ℕ, List, ◌∷◌, Bool, ◌+◌, suc, false, not, ◌%◌, ◌&&◌, if◌then◌else◌, zero, ◌^◌, ◌==◌, leb, ◌*◌,
  ◌/◌,
}
use mmorpg_server.TestPacketBot.DummyClient.{
  Bot, Shared, mass_dropping, zombie_dead, unstarted, disconnected, is_connected, set_test_mode,
  disconnect, no_stats,
}

-- The parts of `FConfig` that reach a client
pub record ClientConfig : Type 0 where
  pub send_interval_ms : ℕ
  pub enable_artificial_latency : Bool

-- A new client after `SetConfig`; `garbage` is the memory that its buffer starts with.
unfoldable pub new_client : (ℕ → ℕ) → ClientConfig → ℕ → Bot
new_client garbage config client_id = record {
  client_id = client_id;
  my_usn = (client_id + 1) % 2 ^ 32;
  bot_state = unstarted;
  connection_state = disconnected;
  server_session_id = 0;
  reconnect_token = 0;
  has_login_info = false;
  just_restored = false;
  connect_start_time = 0;
  disconnect_time = 0;
  wait_duration = 0;
  recv_buffer = new_recv_buffer garbage recv_buffer_size;
  send_buffer = [];
  send_size = 0;
  last_send_time = 0;
  next_send_time = 0;
  send_interval_ms = config.send_interval_ms;
  enable_artificial_latency = config.enable_artificial_latency;
  stats = no_stats;
  tasks = [];
}

-- The clients with the numbers `i`, ..., `i + count - 1`
unfoldable pub new_clients : (ℕ → ℕ) → ClientConfig → ℕ → ℕ → List Bot
new_clients garbage config i zero = []
new_clients garbage config i (suc count) =
    new_client garbage config i ∷ new_clients garbage config (suc i) count

-- The static members at the start of the program
abbrev pub initial_shared : Shared
initial_shared = record {
  global_mass_drop_wakeup_time = 0;
  enable_random_rolling = false;
  active_client_count = 0;
  allow_broadcast = false;
}

-- A loop over the clients
unfoldable pub visit : (ℕ → Bot → Shared → Bot × Shared) → ℕ → List Bot → Shared → List Bot × Shared
visit f i [] sh = ([], sh)
visit f i (b ∷ bots) sh =
    let (b', sh') = f i b sh in let (bots', sh'') = visit f (suc i) bots sh' in (b' ∷ bots', sh'')

-- `UpdateClients`, with the draws and the time that each client gets
unfoldable pub update_clients : ℕ → (ℕ → Draws) → (ℕ → ℕ) → List Bot → Shared → List Bot × Shared
update_clients current_time_ms draws now bots sh =
    visit (λ i. update_bot (draws i) (now i) current_time_ms) 0 bots sh

-- The key 'r'
unfoldable pub toggle_rolling : Shared → Shared
toggle_rolling sh = record sh { enable_random_rolling = not sh.enable_random_rolling }

-- The loop of the key 'm', with what `rand()` returns for each connected client; the first
-- component is `count`.
unfoldable pub mass_drop : (ℕ → ℕ) → ℕ → ℕ → ℕ → List Bot → Shared → ℕ × List Bot × Shared
mass_drop rand now i count [] sh = (count, [], sh)
mass_drop rand now i count (b ∷ bots) sh =
    let dropped = is_connected b.connection_state && (rand i % 2 == 0) in
    let (b', sh') = set_test_mode mass_dropping now b sh in
    let (count', bots', sh'') =
      mass_drop rand now (suc i) (if dropped then count + 1 else count) bots
        (if dropped then sh' else sh) in
    (count', (if dropped then b' else b) ∷ bots', sh'')

-- `(size_t)(MAX_SIM_PLAYERS * 0.05)`
abbrev pub zombie_target : ℕ
zombie_target = max_sim_players * 5 / 100

-- The loop of the key 't', which ends when `count` has reached the target
unfoldable pub make_zombies : ℕ → ℕ → List Bot → Shared → ℕ × List Bot × Shared
make_zombies now count [] sh = (count, [], sh)
make_zombies now count (b ∷ bots) sh =
    let (b', sh') = set_test_mode zombie_dead now b sh in
    let after = make_zombies now (suc count) bots sh' in
    let others = make_zombies now count bots sh in
    if not (is_connected b.connection_state)
    then (others.0, b ∷ others.1, others.2)
    else if leb zombie_target (suc count)
    then (suc count, b' ∷ bots, sh')
    else (after.0, b' ∷ after.1, after.2)

-- One round of the loop of `ConnectClients`, or the handler of an event of the client `k`
unfoldable pub call_client :
    ℕ → (Bot → Shared → Bot × Shared) → List Bot → Shared → List Bot × Shared
call_client k f [] sh = ([], sh)
call_client zero f (b ∷ bots) sh = let (b', sh') = f b sh in (b' ∷ bots, sh')
call_client (suc k) f (b ∷ bots) sh = let (bots', sh') = call_client k f bots sh in (b ∷ bots', sh')

-- `Stop` disconnects all clients.
unfoldable pub disconnect_clients : List Bot → Shared → List Bot × Shared
disconnect_clients bots sh = visit (λ i. disconnect) 0 bots sh
