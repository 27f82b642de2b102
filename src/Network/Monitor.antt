-- ===== src/Network/Monitor.antt =====
-- CNetworkMonitor of Source/Core/Network/NetworkMonitor.h.
pub mod Limits
use mmorpg_server.Base.{ℕ, add64, if◌then◌else◌, leb, ltb}
use mmorpg_server.Common.Types.{
  max_send_queue_size_lod0, max_send_queue_size_lod1, max_send_queue_size_lod2,
}

pub record Monitor : Type 0 where
  pub disconnect_count : ℕ
  pub current_limit : ℕ
  pub elapsed_ms : ℕ

abbrev pub initial_monitor : Monitor
initial_monitor = record { disconnect_count = 0; current_limit = 2000; elapsed_ms = 0 }

unfoldable pub on_disconnect : Monitor → Monitor
on_disconnect m = record m { disconnect_count = add64 m.disconnect_count 1 }

unfoldable pub get_current_send_queue_limit : Monitor → ℕ
get_current_send_queue_limit m = m.current_limit

-- The limit that `Update` picks for the number of disconnects in a window.
unfoldable pub pick_limit : ℕ → ℕ
pick_limit count =
    if leb 5000 count
    then max_send_queue_size_lod2
    else if leb 10000 count
    then max_send_queue_size_lod1
    else max_send_queue_size_lod0

unfoldable pub update_monitor : Monitor → ℕ → Monitor
unfolding pick_limit
update_monitor m delta_ms =
    let elapsed = add64 m.elapsed_ms delta_ms in
    if ltb elapsed 10000 then record m { elapsed_ms = elapsed } else record m {
      disconnect_count = 0;
      current_limit = pick_limit m.disconnect_count;
      elapsed_ms = 0;
    }
