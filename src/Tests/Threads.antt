-- ===== src/Tests/Threads.antt =====
-- CLocalThread of Source/Core/Threading at concrete inputs.
use mmorpg_server.Base.{
  ℕ, none, some, arith, true, ◌≡◌, ◌≤◌, if◌then◌else◌, refl, ◌==◌, add64, false,
}
use mmorpg_server.Common.Types.{SessionState}
use mmorpg_server.Network.World.{World}
use mmorpg_server.Network.Session.{is_disconnect_timer_expired, validate_reconnect_token}
use mmorpg_server.Network.Registry.{slot, scan, verify_reconnect, find_session_by_usn}
use mmorpg_server.Threading.IoThreadPool.{new_io_thread_pool}
use mmorpg_server.Threading.LocalThread.{LocalThread, new_local_thread}
use mmorpg_server.Threading.LocalThread.Messages.{handle_broadcast, restore_session}
use mmorpg_server.Threading.LocalThread.Messages.Broadcast.{handle_broadcast_lem}
use mmorpg_server.Threading.LocalThread.Messages.Login.{restore_session_lem}
use mmorpg_server.Threading.LocalThread.Pool.{IsValid}
use mmorpg_server.Threading.LocalThread.Ticks.{process_tick}
use mmorpg_server.Threading.LocalThread.Invariant.{process_tick-IsValid}
use mmorpg_server.Threading.ThreadManager.{ThreadManager}
use mmorpg_server.Tests.Server.{server, thread_0, session}

-- A thread with one session, the first of its pool
abbrev local : LocalThread
local = record new_local_thread {
  is_running = true;
  session_used = λ i. i == 0;
  session_count = 1;
  active_sessions = λ i. if i == 0 then some 0 else none;
  active_session_count = 1;
}

local-IsValid : IsValid local
local-IsValid = record {
  held =
      λ i lt. record { index = 0; within = omega arith; entry = ground (arith, lt); used = refl };
  distinct = λ i j li lj same. omega (arith, li, lj);
  same_count = refl;
  bounded = omega arith;
}

process_tick_example : IsValid (process_tick (λ n. n) thread_0 local server).0
process_tick_example = process_tick-IsValid (λ n. n) thread_0 local server local-IsValid

handle_broadcast_example :
    let (t', w') = handle_broadcast (λ n. n) thread_0 local server 1 (some 0) 20000 in
    ((n : ℕ) × (n ≤ 30) × (t'.packets_sent ≡ add64 0 n))
    × ((w'.pool.buffers 0).is_allocated ≡ false)
handle_broadcast_example = handle_broadcast_lem (λ n. n) thread_0 local server 1 0 20000

-- Session 1 is a new connection on socket 0, session 0 waits.
abbrev reconnecting : World
reconnecting = record server {
  sessions = λ p. if p == 1 then record session { socket = some 0 } else session;
}

restore_session_example :
    let w' = restore_session thread_0 reconnecting 1 0 0 in
    (w'.sessions 0 ≡ record session {
      socket = some 0;
      state = SessionState.active;
      disconnect_time = 0;
      last_active_time = 6000;
    })
    × (w'.sessions 1 ≡ session)
restore_session_example = restore_session_lem thread_0 reconnecting 1 0 0 (omega arith) refl refl

found : (find_session_by_usn thread_0 server 1001 77 true).0 ≡ some 0
unfolding find_session_by_usn scan slot verify_reconnect validate_reconnect_token
    is_disconnect_timer_expired
found = refl

-- Two threads, the second of which has no session
abbrev manager : ThreadManager
manager = record {
  is_running = true;
  io_thread_pool = new_io_thread_pool;
  local_threads = λ i. if i == 0 then local else new_local_thread;
  local_thread_count = 2;
  next_thread_index = 0;
}
