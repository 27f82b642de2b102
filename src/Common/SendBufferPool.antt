-- ===== src/Common/SendBufferPool.antt =====
-- CSendBufferPool of Source/Core/Common/Buffer.h and Buffer.cpp. The lock makes each call one step.
-- A buffer object has a number; `none` as a result is a use of an object that has been deleted.
pub mod Invariant
pub mod Acquire
pub mod Release
use mmorpg_server.Base.{
  [], ℕ, none, some, arith, Bool, List, if◌then◌else◌, Option, ltb, not, ◌∷◌, update, leb, ◌*◌,
  true, false, length, ◌+◌,
}
use mmorpg_server.Common.Types.{send_buffer_size}
use mmorpg_server.Common.SendBuffer.{
  Memory, SendBuffer, empty_send_buffer, new_send_buffer, destroy, reset,
}

-- `CSendBuffer` with its flag
pub record PooledBuffer : Type 0 where
  pub buffer : SendBuffer
  pub is_allocated : Bool

-- `pool` is `Pool` with its back first; `exists` tells the objects that have not been deleted.
pub record SendBufferPool : Type 0 where
  pub pool : List ℕ
  pub objects : ℕ → PooledBuffer
  pub exists : ℕ → Bool
  pub next : ℕ
  pub memory : Memory

abbrev pub max_pooled : ℕ
max_pooled = 1024

-- `new CSendBuffer(allocSize)`, and the flag
unfoldable pub allocate : SendBufferPool → ℕ → ℕ × SendBufferPool
allocate s min_capacity =
    let alloc_size = if ltb min_capacity send_buffer_size then send_buffer_size else min_capacity in
    let (buffer, memory) = new_send_buffer s.memory alloc_size in
    (
      s.next,
      record s {
        objects = update s.objects s.next (record { buffer = buffer; is_allocated = true });
        exists = update s.exists s.next true;
        next = s.next + 1;
        memory = memory;
      },
    )

-- `delete buf`
unfoldable pub delete_buffer : SendBufferPool → ℕ → Option SendBufferPool
delete_buffer s b =
    if not (s.exists b) then none else elim (destroy (s.objects b).buffer s.memory) [
      | none ↦ none
      | some memory ↦ some (record s { exists = update s.exists b false; memory = memory })
    ]

unfoldable pub acquire : SendBufferPool → ℕ → Option (ℕ × SendBufferPool)
acquire s min_capacity = elim s.pool [
  | [] ↦ some (allocate s min_capacity)
  | b ∷ rest ↦
      let taken = record s { pool = rest } in
      let buffer = (s.objects b).buffer in
      if not (s.exists b)
      then none
      else if leb min_capacity buffer.capacity
      then some (
        b,
        record taken {
          objects = update s.objects b (record { buffer = reset buffer; is_allocated = true });
        },
      )
      else elim (delete_buffer taken b) [ none ↦ none | some s' ↦ some (allocate s' min_capacity) ]
]

-- The flag is reset: `compare_exchange_strong(true, false)`.
abbrev pub unmarked : SendBufferPool → ℕ → SendBufferPool
unmarked s b = record s {
  objects = update s.objects b (record (s.objects b) { is_allocated = false });
}

-- What `Release` does when the flag was set, the reset of the flag included
unfoldable pub give_back : SendBufferPool → ℕ → Option SendBufferPool
give_back s b =
    let buffer = (s.objects b).buffer in
    if ltb (send_buffer_size * 2) buffer.capacity
    then delete_buffer (unmarked s b) b
    else if ltb (length s.pool) max_pooled
    then some (record s {
      pool = b ∷ s.pool;
      objects = update s.objects b (record { buffer = reset buffer; is_allocated = false });
    })
    else delete_buffer (unmarked s b) b

unfoldable pub release : SendBufferPool → Option ℕ → Option SendBufferPool
release s none = some s
release s (some b) =
    if not (s.exists b)
    then none
    else if not (s.objects b).is_allocated
    then some s
    else give_back s b

-- `for (CSendBuffer* buf : Pool) delete buf;`
unfoldable pub delete_all : SendBufferPool → List ℕ → Option SendBufferPool
delete_all s [] = some s
delete_all s (b ∷ rest) = elim (delete_all s rest) [ none ↦ none | some s' ↦ delete_buffer s' b ]

-- The destructor
unfoldable pub destroy_pool : SendBufferPool → Option SendBufferPool
destroy_pool s = elim (delete_all s s.pool) [
  | none ↦ none
  | some s' ↦ some (record s' { pool = [] })
]
