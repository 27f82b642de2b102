-- ===== src/Tests/Pool.antt =====
-- The packet pool of Source/Core/Common/Buffer.cpp at concrete inputs.
use mmorpg_server.Base.{[], arith, ◌==◌, ◌≡◌, false, ◌∷◌, ◌≢◌, some, true, refl, flatten, List}
use mmorpg_server.Common.LockingStack
use mmorpg_server.Common.PacketPool.{
  mark_allocated, PacketPool, acquire, release, give_back, allocate_new_page_and_pop,
}
use mmorpg_server.Common.PacketPool.Conservation.{IsConserved}
use mmorpg_server.Common.PacketPool.Runs.{
  Call, acquires, releases, run_calls, run_calls-IsAccounted, answer,
}
use mmorpg_server.Common.PacketPool.Ledger.{IsAccounted}
use mmorpg_server.Common.PacketPool.Exclusive.{Grants, acquire-Grants}
use mmorpg_server.Common.PacketPool.Release.{double_check_loses}

-- Three buffers for one thread: 0 and 1 in the free list, 2 in use
abbrev pool : PacketPool
pool = record {
  buffers = λ b. record {
    data_ = λ _. 0;
    size = 0;
    protocol_id = 0;
    session_id = 0;
    is_allocated = b == 2;
  };
  next = 3;
  free_list = 0 ∷ 1 ∷ [];
  caches = [] ∷ [];
  pages = 3 ∷ [];
  total_buffer_size = 3;
  use_count = 1;
  max_use_count = 1;
}

pool-IsConserved : IsConserved pool
unfolding flatten
pool-IsConserved b = ground arith

-- The thread 0 gives back a buffer and takes two.
abbrev calls : List Call
calls = releases 0 2 ∷ acquires 0 ∷ acquires 0 ∷ []

-- The buffer 2 is held.
pool-IsAccounted : IsAccounted (2 ∷ [], pool)
unfolding flatten
pool-IsAccounted b = (ground arith, ground arith)

run_calls_example : IsAccounted (run_calls calls (2 ∷ [], pool))
run_calls_example = run_calls-IsAccounted calls (2 ∷ [], pool) refl pool-IsAccounted

-- Of the buffers 2, 0 and 1, two are taken again.
run_calls_held : (run_calls calls (2 ∷ [], pool)).0 ≡ 0 ∷ 2 ∷ []
unfolding run_calls answer acquire release give_back mark_allocated LockingStack.pop_batch
run_calls_held = refl

acquire-Grants_example : Grants pool.buffers 3 (acquire pool 0)
acquire-Grants_example = acquire-Grants pool 0 (omega arith) pool-IsConserved

double_check_loses_example :
    (false ≡ false)
    × ((allocate_new_page_and_pop pool).0 ≢ some 0)
    × (((allocate_new_page_and_pop pool).1.buffers 0).is_allocated ≡ true)
double_check_loses_example = double_check_loses pool 0 (1 ∷ []) refl pool-IsConserved
