-- ===== src/Common/MpscQueue.antt =====
-- MPSCQueue of Source/Core/Common/LockFreeQueue.h, the ring with a flag for each slot, when its
-- calls do not overlap.
-- `Capacity` is a power of two, so `x & (Capacity - 1)` is `x % capacity`; `size_t` wraps at 2 ^ 64.
pub mod Refine
pub mod Overlap
use mmorpg_server.Base.{
  ℕ, zero, suc, ◌%◌, not, Bool, false, Option, List, if◌then◌else◌, add64, none, [], leb, sub64,
  some, true, ◌==◌, update, ◌∷◌,
}

pub record MpscQueue {ℓ} (A : Type ℓ) (capacity : ℕ) : Type ℓ where
  pub head : ℕ
  pub tail : ℕ
  pub slots : ℕ → Bool
  pub buffer : ℕ → A

module _ {ℓ} {A : Type ℓ} where
  unfoldable pub new_mpsc_queue : (capacity : ℕ) → A → MpscQueue A capacity
  new_mpsc_queue capacity empty = record {
    head = 0;
    tail = 0;
    slots = λ _. false;
    buffer = λ _. empty;
  }

module _ {ℓ} {A : Type ℓ} {capacity : ℕ} where
  -- `Tail_` is advanced first, and taken back when the queue turns out to be full.
  unfoldable pub push : MpscQueue A capacity → A → Bool × MpscQueue A capacity
  push q item =
      let tail = q.tail in
      let index = tail % capacity in
      let reserved = add64 tail 1 in
      if leb capacity (sub64 tail q.head) then (false, record q { tail = sub64 reserved 1 }) else (
        true,
        record q {
          tail = reserved;
          buffer = update q.buffer index item;
          slots = update q.slots index true;
        },
      )

  -- Like `push`; the flag says that the item went into an empty queue.
  unfoldable pub push_and_check_was_empty : MpscQueue A capacity → A → Bool × MpscQueue A capacity
  push_and_check_was_empty q item =
      let tail = q.tail in
      let index = tail % capacity in
      let reserved = add64 tail 1 in
      if leb capacity (sub64 tail q.head) then (false, record q { tail = sub64 reserved 1 }) else (
        tail == q.head,
        record q {
          tail = reserved;
          buffer = update q.buffer index item;
          slots = update q.slots index true;
        },
      )

  -- `out_item` is the option.
  unfoldable pub pop : MpscQueue A capacity → Option A × MpscQueue A capacity
  pop q =
      let index = q.head % capacity in
      if not (q.slots index) then (none, q) else (
        some (q.buffer index),
        record q { slots = update q.slots index false; head = add64 q.head 1 },
      )

  -- The items in the order in which they are written to `out_items`, and the new queue. A round of
  -- the loop is `Pop`, and the argument counts the rounds that `max_count` still allows.
  unfoldable pub pop_batch : ℕ → MpscQueue A capacity → List A × MpscQueue A capacity
  pop_batch zero q = ([], q)
  pop_batch (suc n) q =
      let (out, q') = pop q in
      elim out [
        | none ↦ ([], q)
        | some item ↦ let (items, q'') = pop_batch n q' in (item ∷ items, q'')
      ]

  unfoldable pub is_empty : MpscQueue A capacity → Bool
  is_empty q = not (q.slots (q.head % capacity))

  unfoldable pub approximate_size : MpscQueue A capacity → ℕ
  approximate_size q = if leb q.head q.tail then sub64 q.tail q.head else 0
