-- ===== src/TestPacketBot/LoadTestMain.antt =====
-- The main loop of Source/Etc/TestPacketBot/LoadTestMain.cpp.
use mmorpg_server.TestPacketBot.LoadTestManager.{checked_count, max_clients}
use mmorpg_server.TestPacketBot.LoadTestManager.Clients.{ClientConfig}
use mmorpg_server.TestPacketBot.LoadTestManager.Fleet.{online, online-le}
use mmorpg_server.TestPacketBot.LoadTestManager.Reachable.{Reachable, Reachable-IsRight}
use mmorpg_server.Base.{
  refl, ℕ, arith, List, Bool, ◌≤◌, false, if◌then◌else◌, ◌≡◌, true, leb, ◌*◌, ◌<◌, lt→leb,
}
use mmorpg_server.TestPacketBot.DummyClient.{Bot, Shared}

-- A round for the number of clients in the configuration of `main`, with `bBroadcastStarted`. For
-- numbers below 2 ^ 32 the product with the `double` 0.95 compares like that with 19 / 20.
unfoldable pub main_round : ℕ → Bool → Shared → Bool × Shared
main_round client_count broadcast_started sh =
    if broadcast_started
    then (true, sh)
    else if leb (client_count * 19) (sh.active_client_count * 20)
    then (true, record sh { allow_broadcast = true })
    else (false, sh)

checked_count-le : (count : ℕ) → checked_count count ≤ max_clients
checked_count-le count = ground arith

-- In every state that the clients which `Initialize` makes for a configured number of clients
-- get into by calls of the manager and by events, of which reads and writes end on no client
-- that connects: the main loop, if it has not yet let the clients move, does so if, and only
-- if, 19 of 20 of the configured number are connected. As `Initialize` makes 10000 clients at
-- most, it does so in none of these states for a number above 10526.
pub main_round-Reachable :
    (garbage : ℕ → ℕ) (config : ClientConfig) (client_count : ℕ) (s : List Bot × Shared)
    → Reachable garbage config (checked_count client_count) s
    → ((main_round client_count false s.1).0 ≡ leb (client_count * 19) (online s.0 * 20))
      × (10526 < client_count → main_round client_count false s.1 ≡ (false, s.1))
unfolding main_round
main_round-Reachable garbage config client_count s reach =
    let most = checked_count-le client_count in
    let (same, right) =
      Reachable-IsRight garbage config (checked_count client_count) s (omega (arith, most)) reach in
    let few = online-le s.0 in
    let counted = right.1 in
    (
      ground (arith, counted),
      λ many.
          let short : leb (client_count * 19) (s.1.active_client_count * 20) ≡ false =
            lt→leb _ _ (omega (arith, many, counted, few, same, most)) in
          rw (main_round, short) refl,
    )
