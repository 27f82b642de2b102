-- ===== src/Threading/ThreadManager/Running.antt =====
-- The threads of CThreadManager: what `Initialize` starts and `Shutdown` stops.
use mmorpg_server.Common.Types.{max_local_threads, max_io_threads, max_sessions_per_thread}
use mmorpg_server.Base.{
  refl, ℕ, arith, inl, inr, update-ne, update, u16, ◌∙◌, ap, Bool-cases, ◌≡◌, ◌≤◌, ◌<◌, true, false,
  suc, ◌+◌, if◌then◌else◌, ◌==◌, zero, ◌||◌, ltb,
}
use mmorpg_server.Network.World.{World, Env}
use mmorpg_server.Threading.LocalThread.{LocalThread, post_command}
use mmorpg_server.Threading.LocalThread.Ticks.{start_thread, stop_thread, clear_pool}
use mmorpg_server.Threading.IoThreadPool.{start_io, stop_io}
use mmorpg_server.Threading.ThreadManager.{
  ThreadManager, initialize, shutdown_all, start_all, stop_all,
}

-- The threads run, at least one of each kind, and those beyond the number of local threads do not;
-- the local thread `i` has the id `i`, and the event loop has not been stopped.
pub record HasThreads (m : ThreadManager) : Type 0 where
  pub is_running : m.is_running ≡ true
  pub io_running : m.io_thread_pool.is_running ≡ true
  pub io_going : m.io_thread_pool.is_stopped ≡ false
  pub io_some : 1 ≤ m.io_thread_pool.thread_count
  pub io_most : m.io_thread_pool.thread_count ≤ max_io_threads
  pub local_some : 1 ≤ m.local_thread_count
  pub local_most : m.local_thread_count ≤ max_local_threads
  pub local_running :
      (i : ℕ)
      → i < m.local_thread_count
      → ((m.local_threads i).is_running ≡ true) × ((m.local_threads i).owner_thread_id ≡ i)
  pub no_others : (i : ℕ) → m.local_thread_count ≤ i → (m.local_threads i).is_running ≡ false

-- No thread runs.
pub record HasNoThreads (m : ThreadManager) : Type 0 where
  pub off : m.is_running ≡ false
  pub io_off : m.io_thread_pool.is_running ≡ false
  pub local_off : (i : ℕ) → (m.local_threads i).is_running ≡ false

start_thread_lem :
    (t : LocalThread) (i : ℕ)
    → t.is_running ≡ false
    → i < max_local_threads
    → ((start_thread t (u16 i)).1.is_running ≡ true)
      × ((start_thread t (u16 i)).1.owner_thread_id ≡ i)
unfolding start_thread
start_thread_lem t i off small = ground (arith, off, small)

-- The loop starts the threads from `i` on and leaves the others.
start_all_lem :
    (threads : ℕ → LocalThread) (i count j : ℕ)
    → ((k : ℕ) → i ≤ k → (threads k).is_running ≡ false)
    → i + count ≤ max_local_threads
    → (i ≤ j
        → j < i + count
        → ((start_all threads i count j).is_running ≡ true)
          × ((start_all threads i count j).owner_thread_id ≡ j))
      × (j < i → start_all threads i count j ≡ threads j)
      × (i + count ≤ j → start_all threads i count j ≡ threads j)
unfolding start_all
start_all_lem threads i zero j off small =
    (λ low high. ground (arith, low, high), λ _. refl, λ _. refl)
start_all_lem threads i (suc count) j off small =
    let t = (start_thread (threads i) (u16 i)).1 in
    let threads' = update threads i t in
    let started = start_thread_lem (threads i) i (off i (omega arith)) (omega (arith, small)) in
    let (among, before, behind) =
      start_all_lem threads' (i + 1) count j
        (λ k later.
          ap (λ (t : LocalThread). t.is_running) (update-ne threads i k t (omega (arith, later)))
          ∙ off k (omega (arith, later)))
        (omega (arith, small)) in
    (
      λ low high. elim (Bool-cases (i == j)) [
        | inl same ↦ let here = before (ground (arith, same)) in ground (arith, here, started, same)
        | inr other ↦ among (ground (arith, other, low)) (omega (arith, high))
      ],
      λ low. before (omega (arith, low)) ∙ update-ne threads i j t (omega (arith, low)),
      λ high. behind (omega (arith, high)) ∙ update-ne threads i j t (omega (arith, high)),
    )

-- The loop from the first thread on, when none runs
start_all-running :
    (threads : ℕ → LocalThread) (count j : ℕ)
    → ((k : ℕ) → (threads k).is_running ≡ false)
    → count ≤ max_local_threads
    → (j < count
        → ((start_all threads 0 count j).is_running ≡ true)
          × ((start_all threads 0 count j).owner_thread_id ≡ j))
      × (count ≤ j → (start_all threads 0 count j).is_running ≡ false)
start_all-running threads count j off most =
    let (among, _, behind) = start_all_lem threads 0 count j (λ k _. off k) (omega (arith, most)) in
    (
      λ within. among (omega arith) (omega (arith, within)),
      λ beyond. ap (λ (t : LocalThread). t.is_running) (behind (omega (arith, beyond))) ∙ off j,
    )

-- A start of threads that do not run, on an event loop that was never stopped
pub initialize-HasThreads :
    (m : ThreadManager) (io local_count : ℕ)
    → HasNoThreads m
    → m.io_thread_pool.is_stopped ≡ false
    → ((initialize m io local_count).0 ≡ true) × HasThreads (initialize m io local_count).1
unfolding initialize start_io
initialize-HasThreads m io local_count h fresh =
    let count =
      if (local_count == 0) || ltb max_local_threads local_count
      then max_local_threads
      else local_count in
    let most : count ≤ max_local_threads = ground arith in
    rw (initialize, h.off, h.io_off)
      (
        refl,
        record {
          is_running = refl;
          io_running = refl;
          io_going = fresh;
          io_some = ground arith;
          io_most = ground arith;
          local_some = ground arith;
          local_most = most;
          local_running = λ i. (start_all-running m.local_threads count i h.local_off most).0;
          no_others = λ i. (start_all-running m.local_threads count i h.local_off most).1;
        },
      )

clear_pool-is_running :
    (e : Env) (count i : ℕ) (t : LocalThread) (w : World)
    → (clear_pool e t w i count).0.is_running ≡ t.is_running
unfolding clear_pool
clear_pool-is_running e zero i t w = refl
clear_pool-is_running e (suc count) i t w = elim (Bool-cases (t.session_used i)) [
  | inl used ↦ rw (clear_pool, used) (clear_pool-is_running e count (i + 1) _ _)
  | inr free ↦ rw (clear_pool, free) (clear_pool-is_running e count (i + 1) t w)
]

stop_thread-off : (e : Env) (t : LocalThread) (w : World) → (stop_thread e t w).0.is_running ≡ false
unfolding stop_thread post_command
stop_thread-off e t w = elim (Bool-cases t.is_running) [
  | inl up ↦ rw (stop_thread, up) (clear_pool-is_running e max_sessions_per_thread 0 _ w)
  | inr off ↦ rw (stop_thread, off) refl
]

-- A thread that does not run, or is among those that the loop stops, does not run afterwards.
stop_all-off :
    (e : Env) (threads : ℕ → LocalThread) (w : World) (i count j : ℕ)
    → (j < i → (threads j).is_running ≡ false)
    → (i + count ≤ j → (threads j).is_running ≡ false)
    → ((stop_all e threads w i count).0 j).is_running ≡ false
unfolding stop_all
stop_all-off e threads w i zero j low high = ground (arith, low, high)
stop_all-off e threads w i (suc count) j low high =
    let (t, w') = stop_thread e (threads i) w in
    let off = stop_thread-off e (threads i) w in
    stop_all-off e (update threads i t) w' (i + 1) count j
      (λ below. ground (arith, off, low, below)) (λ beyond. ground (arith, off, high, beyond))

pub shutdown_all-HasNoThreads :
    (e : Env) (m : ThreadManager) (w : World) → HasThreads m → HasNoThreads (shutdown_all e m w).0
unfolding shutdown_all stop_io
shutdown_all-HasNoThreads e m w h =
    rw (shutdown_all, h.is_running)
      (record {
        off = refl;
        io_off = rw h.io_running refl;
        local_off = λ j.
            stop_all-off e m.local_threads w 0 m.local_thread_count j (λ low. ground (arith, low))
              (λ beyond. h.no_others j (omega (arith, beyond)));
      })
