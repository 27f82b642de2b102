-- ===== src/Common/SpscQueue.antt =====
-- SPSCQueue of Source/Core/Common/LockFreeQueue.h, the ring of one producer and one consumer.
-- `Capacity` is a power of two, so `x & (Capacity - 1)` is `x % capacity`; `size_t` wraps at 2 ^ 64.
pub mod Refine
use mmorpg_server.Base.{
  ℕ, ◌%◌, Bool, true, false, Option, none, some, leb, ltb, if◌then◌else◌, add64, sub64, update,
}

pub record SpscQueue {ℓ} (A : Type ℓ) (capacity : ℕ) : Type ℓ where
  pub head : ℕ
  pub tail : ℕ
  pub buffer : ℕ → A

module _ {ℓ} {A : Type ℓ} where
  -- `Buffer_[i] = T{}` for each slot
  unfoldable pub new_spsc_queue : (capacity : ℕ) → A → SpscQueue A capacity
  new_spsc_queue capacity empty = record { head = 0; tail = 0; buffer = λ _. empty }

module _ {ℓ} {A : Type ℓ} {capacity : ℕ} where
  unfoldable pub push : SpscQueue A capacity → A → Bool × SpscQueue A capacity
  push q item = if leb capacity (sub64 q.tail q.head) then (false, q) else (
    true,
    record q { buffer = update q.buffer (q.tail % capacity) item; tail = add64 q.tail 1 },
  )

  -- `out_item` is the option.
  unfoldable pub pop : SpscQueue A capacity → Option A × SpscQueue A capacity
  pop q =
      if leb q.tail q.head
      then (none, q)
      else (some (q.buffer (q.head % capacity)), record q { head = add64 q.head 1 })

  unfoldable pub is_empty : SpscQueue A capacity → Bool
  is_empty q = leb q.tail q.head

  unfoldable pub size : SpscQueue A capacity → ℕ
  size q = if leb q.head q.tail then sub64 q.tail q.head else 0
