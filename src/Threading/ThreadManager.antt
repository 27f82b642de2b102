-- ===== src/Threading/ThreadManager.antt =====
-- CThreadManager of Source/Core/Threading/ThreadManager.h and ThreadManager.cpp.
pub mod Routing
pub mod Running
use mmorpg_server.Base.{
  [], ℕ, none, some, arith, Bool, suc, if◌then◌else◌, Option, u16, update, ◌==◌, false, leb, ltb,
  ◌%◌, true, ◌+◌, ◌||◌, ◌-◌, add64, not, ◌&&◌, zero,
}
use mmorpg_server.Common.Types.{max_io_threads, max_local_threads, max_sessions_per_thread}
use mmorpg_server.Network.World.{World, Env}
use mmorpg_server.Threading.IoThreadPool.{IoThreadPool, start_io, stop_io}
use mmorpg_server.Threading.LocalThread.{LocalThread, Command, post_command, post_create_session}
use mmorpg_server.Threading.LocalThread.Ticks.{start_thread, stop_thread}

pub record ThreadManager : Type 0 where
  pub is_running : Bool
  pub io_thread_pool : IoThreadPool
  pub local_threads : ℕ → LocalThread
  pub local_thread_count : ℕ
  pub next_thread_index : ℕ

-- The loop over `count` threads from `i` on that starts each; none fails, so the roll back of the
-- source never runs.
unfoldable pub start_all : (ℕ → LocalThread) → ℕ → ℕ → ℕ → LocalThread
start_all threads i zero = threads
start_all threads i (suc count) =
    start_all (update threads i (start_thread (threads i) (u16 i)).1) (i + 1) count

unfoldable pub initialize : ThreadManager → ℕ → ℕ → Bool × ThreadManager
initialize m io_thread_count local_thread_count =
    let io_count =
      if (io_thread_count == 0) || ltb max_io_threads io_thread_count then 2 else io_thread_count in
    let count =
      if (local_thread_count == 0) || ltb max_local_threads local_thread_count
      then max_local_threads
      else local_thread_count in
    let (started, io) = start_io m.io_thread_pool io_count in
    if m.is_running
    then (true, m)
    else if not started
    then (false, record m { io_thread_pool = io })
    else (
      true,
      record m {
        io_thread_pool = io;
        local_thread_count = count;
        local_threads = start_all m.local_threads 0 count;
        is_running = true;
      },
    )

-- The loop over `count` threads from `i` on that stops each
unfoldable pub stop_all : Env → (ℕ → LocalThread) → World → ℕ → ℕ → (ℕ → LocalThread) × World
stop_all e threads w i zero = (threads, w)
stop_all e threads w i (suc count) =
    let (t, w') = stop_thread e (threads i) w in stop_all e (update threads i t) w' (i + 1) count

unfoldable pub shutdown_all : Env → ThreadManager → World → ThreadManager × World
shutdown_all e m w =
    if m.is_running
    then (let (threads, w') = stop_all e m.local_threads w 0 m.local_thread_count in
        (
          record m {
            is_running = false;
            io_thread_pool = stop_io m.io_thread_pool;
            local_threads = threads;
            local_thread_count = 0;
          },
          w',
        ))
    else (m, w)

unfoldable pub get_local_thread : ThreadManager → ℕ → Option ℕ
get_local_thread m id = if leb m.local_thread_count id then none else some id

-- The loop over `count` threads from `i` on that keeps the one with the fewest sessions
unfoldable pub least_loaded_from : (ℕ → LocalThread) → ℕ → ℕ → ℕ → ℕ
least_loaded_from threads best i zero = best
least_loaded_from threads best i (suc count) =
    least_loaded_from threads
      (if ltb (threads i).session_count (threads best).session_count then i else best) (i + 1) count

unfoldable pub get_least_loaded_local_thread : ThreadManager → Option ℕ
get_least_loaded_local_thread m =
    if m.local_thread_count == 0
    then none
    else some (least_loaded_from m.local_threads 0 1 (m.local_thread_count - 1))

-- The number of threads is not 0.
unfoldable pub get_next_thread_id : ThreadManager → ℕ × ThreadManager
get_next_thread_id m = (
  u16 (m.next_thread_index % m.local_thread_count),
  record m { next_thread_index = add64 m.next_thread_index 1 },
)

unfoldable pub route_new_connection : ThreadManager → Option ℕ → Bool × ThreadManager
route_new_connection m none = (false, m)
route_new_connection m (some s) = elim (get_least_loaded_local_thread m) [
  | none ↦ (false, m)
  | some i ↦
      if leb max_sessions_per_thread (m.local_threads i).session_count
      then (false, m)
      else let (done, t) = post_create_session (m.local_threads i) (some s) in
        (done, record m { local_threads = update m.local_threads i t })
]

-- The loop over `count` threads from `i` on that posts a command to each
unfoldable pub post_to_all : Command → (ℕ → LocalThread) → ℕ → ℕ → Bool × (ℕ → LocalThread)
post_to_all posted threads i zero = (true, threads)
post_to_all posted threads i (suc count) =
    let (done, t) = post_command (threads i) posted in
    let (all_done, threads') = post_to_all posted (update threads i t) (i + 1) count in
    (done && all_done, threads')

unfoldable pub broadcast_to_all_threads : ThreadManager → Command → Bool × ThreadManager
broadcast_to_all_threads m posted =
    let (all_success, threads) = post_to_all posted m.local_threads 0 m.local_thread_count in
    (all_success, record m { local_threads = threads })
