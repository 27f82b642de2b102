-- ===== src/Network/Monitor/Limits.antt =====
-- The send-queue limits that CNetworkMonitor can be in.
use mmorpg_server.Base.{ℕ, arith, ◌≡◌, inl, ◌<◌, ◌+◌, ◌⊎◌, ◌^◌, ◌≤◌, refl, if◌then◌else◌, ltb, ◌≢◌}
use mmorpg_server.Common.Types.{
  send_queue_capacity, max_send_queue_size_lod0, max_send_queue_size_lod1, max_send_queue_size_lod2,
}
use mmorpg_server.Network.Monitor.{Monitor, initial_monitor, on_disconnect, update_monitor}

-- What the server does to the monitor: a socket closes, or the main loop reports the time.
pub data Step (m : Monitor) : Monitor → Type 0 where
  disconnected : Step m (on_disconnect m)
  ticked : (delta_ms : ℕ) → Step m (update_monitor m delta_ms)

pub data Reach : Monitor → Type 0 where
  start : Reach initial_monitor
  next : {m n : Monitor} → Reach m → Step m n → Reach n

-- The limits that occur.
abbrev pub IsLimit : Monitor → Type 0
IsLimit m =
    (m.current_limit ≡ 2000)
    ⊎ ((m.current_limit ≡ max_send_queue_size_lod0) ⊎ (m.current_limit ≡ max_send_queue_size_lod2))

Step-IsLimit : {m n : Monitor} → Step m n → IsLimit m → IsLimit n
unfolding on_disconnect update_monitor
Step-IsLimit disconnected l = l
Step-IsLimit (ticked delta_ms) l = ground arith

Reach-IsLimit : {m : Monitor} → Reach m → IsLimit m
Reach-IsLimit start = inl refl
Reach-IsLimit (next r s) = Step-IsLimit s (Reach-IsLimit r)

-- In every state that the monitor reaches from its start by disconnects and updates, the limit
-- is below the capacity of a send queue, so a packet is refused by the limit before the queue
-- is full.
pub limit-lt-capacity : {m : Monitor} → Reach m → m.current_limit < send_queue_capacity
limit-lt-capacity r = ground (arith, Reach-IsLimit r)

-- An update that closes a window of ten seconds, the time not wrapping, forgets the
-- disconnects, restarts the window and never picks the warning limit, whatever their number:
-- the limit is 600 from 5000 disconnects on, and otherwise 4000.
pub update_monitor_window :
    (m : Monitor) (delta_ms : ℕ)
    → m.elapsed_ms + delta_ms < 2 ^ 64
    → 10000 ≤ m.elapsed_ms + delta_ms
    → let m' = update_monitor m delta_ms in
      (m'.current_limit ≡ (if ltb m.disconnect_count 5000 then 4000 else 600))
      × (m'.current_limit ≢ max_send_queue_size_lod1)
      × (m'.disconnect_count ≡ 0)
      × (m'.elapsed_ms ≡ 0)
unfolding update_monitor
update_monitor_window m delta_ms small full = ground arith

-- Within a window the limit and the count stay.
pub update_monitor_waits :
    (m : Monitor) (delta_ms : ℕ)
    → m.elapsed_ms + delta_ms < 10000
    → update_monitor m delta_ms ≡ record m { elapsed_ms = m.elapsed_ms + delta_ms }
unfolding update_monitor
update_monitor_waits m delta_ms early = ground arith
