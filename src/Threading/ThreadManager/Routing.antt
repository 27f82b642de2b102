-- ===== src/Threading/ThreadManager/Routing.antt =====
-- Which thread CThreadManager gives a new connection to.
use mmorpg_server.Base.{
  ℕ, none, some, arith, ◌<◌, ◌≡◌, ◌≤◌, ◌+◌, suc, Bool-cases, if◌then◌else◌, ◌==◌, ltb, inl, inr,
  ◌-◌, zero,
}
use mmorpg_server.Threading.LocalThread.{LocalThread}
use mmorpg_server.Threading.ThreadManager.{
  ThreadManager, least_loaded_from, get_least_loaded_local_thread,
}

least_loaded_from_lem :
    (threads : ℕ → LocalThread) (best i count : ℕ)
    → best < i + count
    → let found = least_loaded_from threads best i count in
      (found < i + count)
      × ((threads found).session_count ≤ (threads best).session_count)
      × ((j : ℕ)
          → i ≤ j
          → j < i + count
          → (threads found).session_count ≤ (threads j).session_count)
unfolding least_loaded_from
least_loaded_from_lem threads best i zero h =
    (h, omega arith, λ j low high. absurd (omega (arith, low, high)))
least_loaded_from_lem threads best i (suc count) h =
    let better = if ltb (threads i).session_count (threads best).session_count then i else best in
    let (within, below, least) =
      least_loaded_from_lem threads better (i + 1) count (ground (arith, h)) in
    (
      omega (arith, within),
      ground (arith, below),
      λ j low high. elim (Bool-cases (i == j)) [
        | inl first ↦ ground (arith, first, below)
        | inr later ↦ least j (ground (arith, low, later)) (omega (arith, high))
      ],
    )

-- The choice of `GetLeastLoadedLocalThread` fails only when there are no threads; otherwise it is
-- one of the threads, and no thread has fewer sessions.
pub get_least_loaded_local_thread_lem :
    (m : ThreadManager)
    → (get_least_loaded_local_thread m ≡ none → m.local_thread_count ≡ 0)
      × ((i : ℕ)
          → get_least_loaded_local_thread m ≡ some i
          → (i < m.local_thread_count)
            × ((j : ℕ)
                → j < m.local_thread_count
                → (m.local_threads i).session_count ≤ (m.local_threads j).session_count))
unfolding get_least_loaded_local_thread
get_least_loaded_local_thread_lem m = elim (Bool-cases (m.local_thread_count == 0)) [
  | inl empty ↦ (λ e. ground (arith, empty), λ i e. absurd (ground (arith, empty, e)))
  | inr some_threads ↦
      let (within, below, least) =
        least_loaded_from_lem m.local_threads 0 1 (m.local_thread_count - 1) (omega arith) in
      (
        λ e. absurd (ground (arith, some_threads, e)),
        λ i e.
            let same : i ≡ least_loaded_from m.local_threads 0 1 (m.local_thread_count - 1) =
              ground (arith, some_threads, e) in
            rw same (
              ground (arith, within, some_threads),
              λ j lt. elim (Bool-cases (j == 0)) [
                | inl first ↦ ground (arith, first, below)
                | inr later ↦ least j (ground (arith, later)) (ground (arith, lt, some_threads))
              ],
            ),
      )
]
