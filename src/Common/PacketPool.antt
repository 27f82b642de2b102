-- ===== src/Common/PacketPool.antt =====
-- FPacketBuffer and CPacketBufferPool of Source/Core/Common/Buffer.h and Buffer.cpp.
-- A pointer to a buffer is its number: `buffers` is the memory, `next` the first address that `new`
-- has not handed out. `caches` holds the thread-local `t_LocalCache` of each thread, its back first.
-- A call runs without interruption here; it is one thread's, given by its number.
pub mod Conservation
pub mod Exclusive
pub mod Ledger
pub mod Release
pub mod Runs
pub mod Usage
use mmorpg_server.Base.{
  ℕ, zero, suc, Option, none, some, List, [], ◌∷◌, ◌++◌, Bool, length, if◌then◌else◌, add64, update,
  ◌+◌, set, get_or, ltb, true, leb, false, copy_to, ◌&&◌, drop, sub64, take, u16,
}
use mmorpg_server.Common.Types.{max_packet_size, buffer_pool_expand_size}
use mmorpg_server.Common.LockingStack

pub record PacketBuffer : Type 0 where
  pub data_ : ℕ → ℕ
  pub size : ℕ
  pub protocol_id : ℕ
  pub session_id : ℕ
  pub is_allocated : Bool

-- `src` holds `src_size` bytes.
unfoldable pub copy_from : PacketBuffer → List ℕ → ℕ → ℕ → PacketBuffer
copy_from b src proto_id sess_id =
    let src_size = length src in
    let copy_size = if ltb src_size max_packet_size then src_size else max_packet_size in
    record b {
      data_ = copy_to b.data_ 0 (take copy_size src);
      size = u16 copy_size;
      protocol_id = proto_id;
      session_id = sess_id;
    }

unfoldable pub reset_buffer : PacketBuffer → PacketBuffer
reset_buffer b = record b { size = 0; protocol_id = 0; session_id = 0 }

pub record PacketPool : Type 0 where
  pub buffers : ℕ → PacketBuffer
  pub next : ℕ
  pub free_list : List ℕ
  pub caches : List (List ℕ)
  pub pages : List ℕ  -- the `Count` of each page
  pub total_buffer_size : ℕ
  pub use_count : ℕ
  pub max_use_count : ℕ

abbrev pub local_cache_capacity : ℕ
local_cache_capacity = 1000

abbrev pub batch_size : ℕ
batch_size = 500

-- The compare-exchange of the loop succeeds at its first round when nobody interferes.
unfoldable pub update_max_usage : PacketPool → ℕ → PacketPool
update_max_usage p current_usage =
    if ltb p.max_use_count current_usage then record p { max_use_count = current_usage } else p

-- `UseCount.fetch_add(1) + 1`, and the update of the maximum.
unfoldable pub count_use : PacketPool → PacketPool
unfolding update_max_usage
count_use p =
    let current = add64 p.use_count 1 in update_max_usage (record p { use_count = current }) current

-- What `Acquire` does with a buffer that it has found.
unfoldable pub mark_allocated : PacketPool → ℕ → PacketPool
unfolding reset_buffer count_use
mark_allocated p buf = count_use (record p {
  buffers = update p.buffers buf (record (reset_buffer (p.buffers buf)) { is_allocated = true });
})

-- `new FPacketBuffer[count]` at the addresses from `first` on: the constructor sets all but `Data`.
unfoldable pub construct : (ℕ → PacketBuffer) → ℕ → ℕ → ℕ → PacketBuffer
unfolding reset_buffer
construct buffers first count = λ b.
    if leb first b && ltb b (first + count)
    then record (reset_buffer (buffers b)) { is_allocated = false }
    else buffers b

-- `&Buffers[0], …, &Buffers[count - 1]`
unfoldable pub addresses : ℕ → ℕ → List ℕ
addresses first zero = []
addresses first (suc count) = first ∷ addresses (first + 1) count

unfoldable pub allocate_new_page_internal : PacketPool → ℕ → PacketPool
unfolding construct count_use
allocate_new_page_internal p count = count_use (record p {
  buffers = construct p.buffers p.next count;
  next = p.next + count;
  pages = count ∷ p.pages;
  total_buffer_size = add64 p.total_buffer_size count;
  free_list = LockingStack.push_batch p.free_list (addresses p.next count);
})

unfoldable pub initialize : PacketPool → ℕ → Bool × PacketPool
initialize p init_size = (true, allocate_new_page_internal p init_size)

-- The rounds of the loop that are left after the expansion.
unfoldable pub pop_retry : ℕ → PacketPool → Option ℕ × PacketPool
unfolding mark_allocated
pop_retry zero p = (none, p)
pop_retry (suc rounds) p = elim p.free_list [
  | [] ↦ pop_retry rounds p
  | buf ∷ rest ↦ (some buf, mark_allocated (record p { free_list = rest }) buf)
]

-- The first `Pop` of `AllocateNewPageAndPop`: what it finds is marked, and then overwritten.
unfoldable pub double_check : PacketPool → PacketPool
unfolding mark_allocated
double_check p = elim p.free_list [
  | [] ↦ p
  | buf ∷ rest ↦ mark_allocated (record p { free_list = rest }) buf
]

unfoldable pub allocate_new_page_and_pop : PacketPool → Option ℕ × PacketPool
allocate_new_page_and_pop p =
    pop_retry 5 (allocate_new_page_internal (double_check p) buffer_pool_expand_size)

-- From the thread's own cache, after a refill from the free list if that was empty.
unfoldable pub acquire_cached : PacketPool → ℕ → List ℕ → Option ℕ × PacketPool
acquire_cached p thread [] = allocate_new_page_and_pop p
acquire_cached p thread (buf ∷ rest) =
    (some buf, mark_allocated (record p { caches = set p.caches thread rest }) buf)

unfoldable pub acquire : PacketPool → ℕ → Option ℕ × PacketPool
unfolding acquire_cached
acquire p thread = elim (get_or p.caches thread []) [
  | [] ↦
      let (_, cache, free) = LockingStack.pop_batch p.free_list [] batch_size in
      acquire_cached (record p { free_list = free; caches = set p.caches thread cache }) thread
        cache
  | buf ∷ rest ↦ acquire_cached p thread (buf ∷ rest)
]

-- The part of `Release` after the double-free check and the counter.
unfoldable pub give_back : PacketPool → ℕ → ℕ → PacketPool
give_back p thread buf =
    let cache = get_or p.caches thread [] in
    if ltb (length cache) local_cache_capacity
    then record p { caches = set p.caches thread (buf ∷ cache) }
    else record p {
      caches = set p.caches thread (buf ∷ drop batch_size cache);
      free_list = LockingStack.push_batch p.free_list (take batch_size cache);
    }

-- `compare_exchange_strong(true, false)` on `IsAllocated` decides.
unfoldable pub release : PacketPool → ℕ → ℕ → PacketPool
release p thread buf =
    if (p.buffers buf).is_allocated
    then give_back
        (record p {
          buffers = update p.buffers buf (record (p.buffers buf) { is_allocated = false });
          use_count = sub64 p.use_count 1;
        })
        thread buf
    else p

unfoldable pub get_free_count : PacketPool → ℕ
get_free_count p =
    if ltb p.use_count p.total_buffer_size then sub64 p.total_buffer_size p.use_count else 0

-- The pages are deleted; the free list and the caches keep the pointers into them.
unfoldable pub shutdown_pool : PacketPool → PacketPool
shutdown_pool p = record p { pages = []; total_buffer_size = 0 }
