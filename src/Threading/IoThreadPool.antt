-- ===== src/Threading/IoThreadPool.antt =====
-- CIOThreadPool of Source/Core/Threading/IOThreadPool.h and IOThreadPool.cpp. Its threads run the
-- event loop of asio, and what they run is no part of this state.
use mmorpg_server.Base.{ℕ, Bool, true, false, if◌then◌else◌, ltb, ◌==◌, ◌||◌}
use mmorpg_server.Common.Types.{max_io_threads}

-- `is_stopped` is the state of `IoContext`: after `stop` its `run` returns at once.
pub record IoThreadPool : Type 0 where
  pub thread_count : ℕ
  pub is_running : Bool
  pub is_stopped : Bool

abbrev pub new_io_thread_pool : IoThreadPool
new_io_thread_pool = record { thread_count = 0; is_running = false; is_stopped = false }

-- A number of threads out of range is replaced by 2.
unfoldable pub start_io : IoThreadPool → ℕ → Bool × IoThreadPool
start_io p thread_count = if p.is_running then (true, p) else (
  true,
  record p {
    thread_count =
        if (thread_count == 0) || ltb max_io_threads thread_count then 2 else thread_count;
    is_running = true;
  },
)

-- The threads have been joined when it returns.
unfoldable pub stop_io : IoThreadPool → IoThreadPool
stop_io p =
    if p.is_running then record p { thread_count = 0; is_running = false; is_stopped = true } else p
