-- ===== src/TestPacketBot/LoadTestManager/Stop.antt =====
-- The count of active clients after `Stop` of CLoadTestManager.
use mmorpg_server.TestPacketBot.DummyClient.Updating.{is_in_progress}
use mmorpg_server.TestPacketBot.DummyClient.Counting.{share}
use mmorpg_server.TestPacketBot.LoadTestManager.{Manager, stop_manager}
use mmorpg_server.TestPacketBot.LoadTestManager.Clients.{ClientConfig, visit, disconnect_clients}
use mmorpg_server.TestPacketBot.LoadTestManager.Orderly.{is_orderly}
use mmorpg_server.TestPacketBot.LoadTestManager.Fleet.{online, online-le, AreOrderly}
use mmorpg_server.TestPacketBot.LoadTestManager.Reachable.{Reachable, Reachable-IsRight}
use mmorpg_server.Base.{
  [], refl, ℕ, arith, List, ◌≡◌, ◌<◌, if◌then◌else◌, ◌∷◌, true, ◌^◌, false, ◌+◌, ◌%◌, suc, ◌≤◌,
  length,
}
use mmorpg_server.TestPacketBot.DummyClient.{Bot, Shared, disconnect, is_disconnected}

-- The number of clients that are in the middle of a connect
abbrev pub trying : List Bot → ℕ
trying [] = 0
trying (b ∷ bots) = (if is_in_progress b.connection_state then 1 else 0) + trying bots

trying-le : (bots : List Bot) → trying bots ≤ length bots
trying-le [] = omega arith
trying-le (b ∷ bots) =
    let one : (if is_in_progress b.connection_state then 1 else 0) ≤ 1 = ground arith in
    omega (arith, one, trying-le bots)

-- The number of clients that `Disconnect` does something to
abbrev attached : Bot → ℕ
attached b = if is_disconnected b.connection_state then 0 else 1

attached-share :
    (b : Bot)
    → is_orderly b ≡ true
    → attached b ≡ share b + (if is_in_progress b.connection_state then 1 else 0)
attached-share b h = ground (arith, h)

disconnect_lem :
    (b : Bot) (sh : Shared)
    → sh.active_client_count < 2 ^ 64
    → (((disconnect b sh).1.active_client_count + attached b) % 2 ^ 64 ≡ sh.active_client_count)
      × ((disconnect b sh).1.active_client_count < 2 ^ 64)
      × (share (disconnect b sh).0 ≡ 0)
unfolding disconnect
disconnect_lem b sh small = (ground (arith, small), ground (arith, small), ground arith)

disconnect_clients-count :
    (i : ℕ) (bots : List Bot) (sh : Shared)
    → AreOrderly bots
    → sh.active_client_count < 2 ^ 64
    → let s = visit (λ i. disconnect) i bots sh in
      ((s.1.active_client_count + online bots + trying bots) % 2 ^ 64 ≡ sh.active_client_count)
      × (s.1.active_client_count < 2 ^ 64)
      × (online s.0 ≡ 0)
unfolding visit
disconnect_clients-count i [] sh orderly small = (omega (arith, small), small, refl)
disconnect_clients-count i (b ∷ bots) sh orderly small =
    let (first, still_small, off) = disconnect_lem b sh small in
    let (rest, end_small, all_off) =
      disconnect_clients-count (suc i) bots (disconnect b sh).1 orderly.1 still_small in
    let own = attached-share b orderly.0 in
    (omega (arith, first, rest, own, small), end_small, omega (arith, off, all_off))

-- After a `Stop` that finds the manager running, from a state that its clients, fewer than 2 ^
-- 64, get into by calls of the manager and by events, of which reads and writes end on no
-- client that connects, no client is connected and the manager has to be set up again. The
-- count of active clients is short, modulo 2 ^ 64, by the number of clients that were
-- connecting; so it is 0 only if there were none.
pub stop_manager-Reachable :
    (garbage : ℕ → ℕ) (config : ClientConfig) (count : ℕ) (m : Manager) (s : List Bot × Shared)
    → count < 2 ^ 64
    → Reachable garbage config count s
    → m.is_running ≡ true
    → let (m', sh') = stop_manager (record m { clients = s.0 }) s.1 in
      (online m'.clients ≡ 0)
      × (m'.is_running ≡ false)
      × (m'.is_initialized ≡ false)
      × ((sh'.active_client_count + trying s.0) % 2 ^ 64 ≡ 0)
      × (sh'.active_client_count ≡ 0 → trying s.0 ≡ 0)
unfolding stop_manager disconnect_clients
stop_manager-Reachable garbage config count m s small reach running =
    let (same, right) = Reachable-IsRight garbage config count s small reach in
    let (orderly, counted) = right in
    let few = online-le s.0 in
    let few_trying = trying-le s.0 in
    let (left, left_small, off) =
      disconnect_clients-count 0 s.0 s.1 orderly (omega (arith, counted, few, same, small)) in
    rw (stop_manager, running)
      (
        off,
        refl,
        refl,
        omega (arith, left, left_small, counted),
        λ none_left. omega (arith, left, none_left, counted, few_trying, same, small),
      )
