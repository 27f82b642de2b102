-- ===== src/TestPacketBot/LoadTestManager/Reachable.antt =====
-- The states that the clients of CLoadTestManager get into, by its calls and by what asio tells them.
use mmorpg_server.TestPacketBot.DummyClient.Updating.{Draws, Event, react, is_in_progress}
use mmorpg_server.TestPacketBot.DummyClient.Counting.{share}
use mmorpg_server.TestPacketBot.LoadTestManager.{Manager}
use mmorpg_server.TestPacketBot.LoadTestManager.Statistics.{
  AggregateStats, add_client, add_clients, no_totals, get_aggregate_stats,
}
use mmorpg_server.TestPacketBot.LoadTestManager.Clients.{
  ClientConfig, new_client, new_clients, initial_shared, visit, update_clients, toggle_rolling,
  mass_drop, make_zombies, call_client,
}
use mmorpg_server.TestPacketBot.LoadTestManager.Orderly.{is_orderly, is_waiting}
use mmorpg_server.TestPacketBot.LoadTestManager.Fleet.{
  online, AreOrderly, IsRight, outcome, is_allowed_at, update_clients-IsRight, mass_drop-IsRight,
  make_zombies-IsRight, call_client-IsRight,
}
use mmorpg_server.Base.{
  [], refl, ℕ, some, arith, List, length, ◌≡◌, Bool, true, ◌∷◌, suc, ◌<◌, get_elem?, ◌+◌, ap, ◌^◌,
  zero, ◌∙◌, ◌≤◌, sub64,
}
use mmorpg_server.TestPacketBot.DummyClient.{zombie_dead, Bot, Shared, set_test_mode}

-- A round of the update thread, a key, the start of the moves by `main`, or an event of one client;
-- `ConnectClients` makes the event
-- `connects` of each client.
pub data Call : Type 0 where
  updates_clients : ℕ → (ℕ → Draws) → (ℕ → ℕ) → Call
  presses_r starts_broadcast : Call
  presses_m : (ℕ → ℕ) → ℕ → Call
  presses_t : ℕ → Call
  client_sees : ℕ → Event → ℕ → Call

unfoldable pub call : Call → List Bot × Shared → List Bot × Shared
call (updates_clients current draws now) s = update_clients current draws now s.0 s.1
call presses_r s = (s.0, toggle_rolling s.1)
call starts_broadcast s = (s.0, record s.1 { allow_broadcast = true })
call (presses_m rand now) s = outcome (mass_drop rand now 0 0 s.0 s.1)
call (presses_t now) s = outcome (make_zombies now 0 s.0 s.1)
call (client_sees k ev now) s = call_client k (react ev now) s.0 s.1

abbrev pub is_possible : Call → List Bot × Shared → Bool
is_possible (client_sees k ev _) s = is_allowed_at k ev s.0
is_possible _ s = true

-- From `count` new clients on
pub data Reachable (garbage : ℕ → ℕ) (config : ClientConfig) (count : ℕ)
    : List Bot × Shared → Type 0 where
  created : Reachable garbage config count (new_clients garbage config 0 count, initial_shared)
  called :
      {s : List Bot × Shared}
      → Reachable garbage config count s
      → (c : Call) → is_possible c s ≡ true
      → Reachable garbage config count (call c s)

visit-length :
    (f : ℕ → Bot → Shared → Bot × Shared) (i : ℕ) (bots : List Bot) (sh : Shared)
    → length (visit f i bots sh).0 ≡ length bots
unfolding visit
visit-length f i [] sh = refl
visit-length f i (b ∷ bots) sh = ap suc (visit-length f (suc i) bots (f i b sh).1)

mass_drop-length :
    (rand : ℕ → ℕ) (now i count : ℕ) (bots : List Bot) (sh : Shared)
    → length (mass_drop rand now i count bots sh).1 ≡ length bots
unfolding mass_drop
mass_drop-length rand now i count [] sh = refl
mass_drop-length rand now i count (b ∷ bots) sh =
    ap suc (mass_drop-length rand now (suc i) _ bots _)

make_zombies-length :
    (now count : ℕ) (bots : List Bot) (sh : Shared)
    → length (make_zombies now count bots sh).1 ≡ length bots
unfolding make_zombies
make_zombies-length now count [] sh = refl
make_zombies-length now count (b ∷ bots) sh = ground (
  arith,
  make_zombies-length now count bots sh,
  make_zombies-length now (suc count) bots (set_test_mode zombie_dead now b sh).1,
)

call_client-length :
    (k : ℕ) (f : Bot → Shared → Bot × Shared) (bots : List Bot) (sh : Shared)
    → length (call_client k f bots sh).0 ≡ length bots
unfolding call_client
call_client-length k f [] sh = refl
call_client-length zero f (b ∷ bots) sh = refl
call_client-length (suc k) f (b ∷ bots) sh = ap suc (call_client-length k f bots sh)

pub new_clients-length :
    (garbage : ℕ → ℕ) (config : ClientConfig) (i count : ℕ)
    → length (new_clients garbage config i count) ≡ count
unfolding new_clients
new_clients-length garbage config i zero = refl
new_clients-length garbage config i (suc count) =
    ap suc (new_clients-length garbage config (suc i) count)

call-length : (c : Call) (s : List Bot × Shared) → length (call c s).0 ≡ length s.0
unfolding call update_clients
call-length (updates_clients current draws now) s = visit-length _ 0 s.0 s.1
call-length presses_r s = refl
call-length starts_broadcast s = refl
call-length (presses_m rand now) s = mass_drop-length rand now 0 0 s.0 s.1
call-length (presses_t now) s = make_zombies-length now 0 s.0 s.1
call-length (client_sees k ev now) s = call_client-length k (react ev now) s.0 s.1

call-IsRight :
    (c : Call) (s : List Bot × Shared)
    → length s.0 < 2 ^ 64
    → is_possible c s ≡ true
    → IsRight 0 s
    → IsRight 0 (call c s)
unfolding call toggle_rolling
call-IsRight (updates_clients current draws now) s small ok right =
    update_clients-IsRight current draws now s.0 s.1 small right
call-IsRight presses_r s small ok right = right
call-IsRight starts_broadcast s small ok right = right
call-IsRight (presses_m rand now) s small ok right =
    mass_drop-IsRight rand now 0 0 0 s.0 s.1 (omega (arith, small)) right
call-IsRight (presses_t now) s small ok right =
    make_zombies-IsRight now 0 0 s.0 s.1 (omega (arith, small)) right
call-IsRight (client_sees k ev now) s small ok right =
    call_client-IsRight k ev now 0 s.0 s.1 (omega (arith, small)) ok right

new_clients-right :
    (garbage : ℕ → ℕ) (config : ClientConfig) (i count : ℕ)
    → AreOrderly (new_clients garbage config i count)
      × (online (new_clients garbage config i count) ≡ 0)
unfolding new_clients new_client
new_clients-right garbage config i zero = (tt, refl)
new_clients-right garbage config i (suc count) =
    let rest = new_clients-right garbage config (suc i) count in
    ((refl, rest.0), omega (arith, rest.1))

pub Reachable-IsRight :
    (garbage : ℕ → ℕ) (config : ClientConfig) (count : ℕ) (s : List Bot × Shared)
    → count < 2 ^ 64
    → Reachable garbage config count s
    → (length s.0 ≡ count) × IsRight 0 s
Reachable-IsRight garbage config count _ small created =
    let fresh = new_clients-right garbage config 0 count in
    (new_clients-length garbage config 0 count, (fresh.0, omega (arith, fresh.1)))
Reachable-IsRight garbage config count _ small (called {s} before c ok) =
    let (same, right) = Reachable-IsRight garbage config count s small before in
    (call-length c s ∙ same, call-IsRight c s (omega (arith, same, small)) ok right)

add_clients-connected :
    (t : AggregateStats) (bots : List Bot)
    → t.connected_clients + length bots < 2 ^ 64
    → (add_clients t bots).connected_clients ≡ t.connected_clients + online bots
unfolding add_clients add_client
add_clients-connected t [] small = omega arith
add_clients-connected t (b ∷ bots) small =
    let one : (add_client t b).connected_clients ≡ t.connected_clients + share b =
      ground (arith, small) in
    let at_most_one : share b ≤ 1 = ground arith in
    let rest =
      add_clients-connected (add_client t b) bots (omega (arith, one, small, at_most_one)) in
    omega (arith, rest, one)

client-orderly :
    (bots : List Bot) (k : ℕ) (b : Bot)
    → AreOrderly bots
    → get_elem? bots k ≡ some b
    → is_orderly b ≡ true
client-orderly [] k b orderly at = cc
client-orderly (c ∷ bots) zero b orderly at = ground (arith, at, orderly.0)
client-orderly (c ∷ bots) (suc k) b orderly at = client-orderly bots k b orderly.1 at

-- In every state that fewer than 2 ^ 64 clients get into, by calls of the manager and by
-- events, of which reads and writes end on no client that connects, the total of connected
-- clients is the count that their connects and disconnects have kept, and a client that
-- connects is in one of the states in which an update leaves it alone.
pub get_aggregate_stats-Reachable :
    (garbage : ℕ → ℕ) (config : ClientConfig) (count now : ℕ) (m : Manager) (s : List Bot × Shared)
    → count < 2 ^ 64
    → Reachable garbage config count s
    → ((get_aggregate_stats now (record m { clients = s.0 })).connected_clients
        ≡ s.1.active_client_count)
      × ((k : ℕ) (b : Bot)
          → get_elem? s.0 k ≡ some b
          → is_in_progress b.connection_state ≡ true
          → is_waiting b.bot_state ≡ true)
unfolding get_aggregate_stats
get_aggregate_stats-Reachable garbage config count now m s small reach =
    let (same, right) = Reachable-IsRight garbage config count s small reach in
    let total =
      add_clients-connected (no_totals (sub64 now m.start_time)) s.0 (omega (arith, same, small)) in
    (
      ground (arith, total, right.1),
      λ k b at trying.
          let orderly = client-orderly s.0 k b right.0 at in ground (arith, orderly, trying),
    )
