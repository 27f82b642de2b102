-- ===== src/TestPacketBot/LoadTestManager/Setup.antt =====
-- What `Initialize` of CLoadTestManager sets up.
use mmorpg_server.Threading.IoThreadPool.{IoThreadPool, new_io_thread_pool, start_io}
use mmorpg_server.TestPacketBot.LoadTestManager.{
  Manager, Config, new_manager, start_pools, client_contexts, initialize_manager, create_clients,
  checked_count, contexts_for, threads_for, max_clients, max_io_contexts, clients_per_io_context,
}
use mmorpg_server.Common.Types.{max_io_threads}
use mmorpg_server.TestPacketBot.LoadTestManager.Reachable.{new_clients-length}
use mmorpg_server.Base.{
  refl, ℕ, some, arith, ◌≡◌, ◌≤◌, ◌<◌, true, replicate, get_elem?, ◌*◌, suc, ◌+◌, ◌%◌, ap, ◌∙◌,
  zero, length,
}

new_pool-starts : (threads : ℕ) → (start_io new_io_thread_pool threads).0 ≡ true
unfolding start_io
new_pool-starts threads = refl

start_pools-succeeds :
    (n k threads : ℕ) → n ≤ k → (start_pools n threads (replicate k new_io_thread_pool)).0 ≡ true
unfolding start_pools
start_pools-succeeds zero k threads le = refl
start_pools-succeeds (suc n) zero threads le = ground (arith, le)
start_pools-succeeds (suc n) (suc k) threads le =
    rw (start_pools, new_pool-starts threads, start_pools-succeeds n k threads (omega (arith, le)))
      refl

-- The pools that are started all run.
start_pools-runs :
    (n k threads i : ℕ)
    → n ≤ k
    → i < n
    → get_elem? (start_pools n threads (replicate k new_io_thread_pool)).1 i
      ≡ some (start_io new_io_thread_pool threads).1
unfolding start_pools
start_pools-runs zero k threads i le lt = ground (arith, lt)
start_pools-runs (suc n) zero threads i le lt = ground (arith, le)
start_pools-runs (suc n) (suc k) threads zero le lt =
    rw (start_pools, new_pool-starts threads, start_pools-succeeds n k threads (omega (arith, le)))
      refl
start_pools-runs (suc n) (suc k) threads (suc i) le lt =
    rw (start_pools, new_pool-starts threads, start_pools-succeeds n k threads (omega (arith, le)))
      (start_pools-runs n k threads i (omega (arith, le)) (omega (arith, lt)))

client_contexts_lem :
    (n i count k : ℕ) → k < count → get_elem? (client_contexts n i count) k ≡ some ((i + k) % n)
unfolding client_contexts
client_contexts_lem n i zero k lt = ground (arith, lt)
client_contexts_lem n i (suc count) zero lt = ap (λ j. some (j % n)) (omega arith)
client_contexts_lem n i (suc count) (suc k) lt =
    client_contexts_lem n (suc i) count k (omega (arith, lt)) ∙ ap (λ j. some (j % n)) (omega arith)

checked_count-bounds : (count : ℕ) → (1 ≤ checked_count count) × (checked_count count ≤ max_clients)
checked_count-bounds count = (ground arith, ground arith)

contexts_for-bounds :
    (count : ℕ)
    → 1 ≤ count
    → count ≤ max_clients
    → (1 ≤ contexts_for count)
      × (contexts_for count ≤ max_io_contexts)
      × (count ≤ clients_per_io_context * contexts_for count)
contexts_for-bounds count low high =
    (ground (arith, low, high), ground (arith, low, high), ground (arith, low, high))

start_io-runs :
    (threads : ℕ)
    → let p = (start_io new_io_thread_pool threads).1 in
      (p.is_running ≡ true) × (1 ≤ p.thread_count) × (p.thread_count ≤ max_io_threads)
unfolding start_io
start_io-runs threads = (refl, ground arith, ground arith)

-- A pool that runs with a number of threads that is allowed
abbrev pub Runs : IoThreadPool → Type 0
Runs p = (p.is_running ≡ true) × (1 ≤ p.thread_count) × (p.thread_count ≤ max_io_threads)

-- A manager that is set up has between 1 and 10000 clients and enough pools for 2500 clients each,
-- 4 at most; the client `k` uses the pool `k` modulo their number, and that pool runs.
abbrev pub IsReady : Manager → Type 0
IsReady m =
    (m.is_initialized ≡ true)
    × (1 ≤ length m.clients)
    × (length m.clients ≤ max_clients)
    × (m.io_context_count ≤ max_io_contexts)
    × (length m.clients ≤ clients_per_io_context * m.io_context_count)
    × ((k : ℕ)
        → k < length m.clients
        → (pool : IoThreadPool) × (get_elem? m.contexts k ≡ some (k % m.io_context_count))
          × (get_elem? m.io_thread_pools (k % m.io_context_count) ≡ some pool)
          × Runs pool)

-- For any configuration, `Initialize` of a new manager succeeds and leaves it set up; called
-- again, it succeeds and does nothing.
pub initialize_manager-IsReady :
    (garbage garbage' : ℕ → ℕ) (first config config' : Config)
    → let r = initialize_manager garbage config (new_manager first) in
      (r.0 ≡ true) × IsReady r.1 × (initialize_manager garbage' config' r.1 ≡ (true, r.1))
unfolding initialize_manager create_clients
initialize_manager-IsReady garbage garbage' first config config' =
    let count = checked_count config.client_count in
    let n = contexts_for count in
    let threads = threads_for config.io_thread_count n in
    let (low, high) = checked_count-bounds config.client_count in
    let (some_context, few, enough) = contexts_for-bounds count low high in
    let all = start_pools-succeeds n max_io_contexts threads few in
    let number = new_clients-length garbage config.client_config 0 count in
    rw (initialize_manager, all)
      (
        refl,
        (
          refl,
          omega (arith, number, low),
          omega (arith, number, high),
          few,
          omega (arith, number, enough),
          λ k lt. (
            (start_io new_io_thread_pool threads).1,
            client_contexts_lem n 0 count k (omega (arith, number, lt))
                ∙ ap (λ j. some (j % n)) (omega arith),
            start_pools-runs n max_io_contexts threads (k % n) few (omega (arith, some_context)),
            start_io-runs threads,
          ),
        ),
        refl,
      )
