-- ===== src/Common/SpscQueue/Refine.antt =====
-- An SPSCQueue is a bounded first-in first-out queue, as long as `Tail_` does not wrap.
use mmorpg_server.Common.Fifo.{put, take_first, Implementation, Op, run, replies, replies-run}
use mmorpg_server.Common.SpscQueue.{SpscQueue, push, pop, is_empty, size}
use mmorpg_server.Base.{
  ℕ, arith, ◌≤◌, List, length, ◌<◌, ◌+◌, ◌≡◌, ◌^◌, ◌-◌, update, length-slice, ◌%◌, ◌++◌, ◌∷◌, [],
  ap, ◌==◌, sub64_le, leb, add64, Bool-cases, sub64, ltb, not, inl, ltb→lt, true, inr, refl, ring,
  ring-cons, ring-push,
}

module _ {ℓ} {A : Type ℓ} {capacity : ℕ} where
  pub record IsValid (q : SpscQueue A capacity) : Type 0 where
    pub ordered : q.head ≤ q.tail
    pub bounded : q.tail ≤ q.head + capacity
    pub unwrapped : q.tail < 2 ^ 64

  -- The entries from `Head_` to `Tail_`, oldest first.
  abbrev pub contents : SpscQueue A capacity → List A
  contents q = ring capacity q.buffer q.head (q.tail - q.head)

  pub length-contents : (q : SpscQueue A capacity) → length (contents q) ≡ q.tail - q.head
  length-contents q = length-slice (λ i. q.buffer (i % capacity)) q.head (q.tail - q.head)

  -- The test of `Push` on the two indices is a test on the number of entries.
  full_iff :
      (q : SpscQueue A capacity)
      → IsValid q
      → leb capacity (sub64 q.tail q.head) ≡ not (ltb (length (contents q)) capacity)
  full_iff q v = ground (arith, length-contents q, sub64_le q.tail q.head v.ordered v.unwrapped)

  contents-push :
      (q : SpscQueue A capacity) (item : A)
      → IsValid q
      → q.tail + 1 < 2 ^ 64
      → length (contents q) < capacity
      → ring capacity (update q.buffer (q.tail % capacity) item) q.head (add64 q.tail 1 - q.head)
        ≡ contents q ++ item ∷ []
  contents-push q item v small h =
      let len : add64 q.tail 1 - q.head ≡ q.tail - q.head + 1 = omega arith in
      rw len (
        ring-push capacity q.buffer q.head q.tail (q.tail - q.head) item (omega arith)
          (omega (arith, length-contents q)))

  -- `Push` appends the item, or leaves a full queue alone and returns false.
  pub push_refines :
      (q : SpscQueue A capacity) (item : A)
      → IsValid q
      → q.tail + 1 < 2 ^ 64
      → (((push q item).0, contents (push q item).1) ≡ put capacity (contents q) item)
        × IsValid (push q item).1
        × ((push q item).1.tail ≤ q.tail + 1)
  unfolding push put
  push_refines q item v small =
      let e = full_iff q v in
      elim (Bool-cases (ltb (length (contents q)) capacity)) [
        | inl room ↦
            let h = ltb→lt _ _ room in
            rw (e, room)
              (
                ap (λ xs. (true, xs)) (contents-push q item v small h),
                omega (arith, length-contents q),
                omega arith,
              )
        | inr full ↦ rw (e, full) (refl, v, omega arith)
      ]

  -- `Pop` takes the oldest entry, and fails on an empty queue only.
  pub pop_refines :
      (q : SpscQueue A capacity)
      → IsValid q
      → (((pop q).0, contents (pop q).1) ≡ take_first (contents q))
        × IsValid (pop q).1
        × ((pop q).1.tail ≡ q.tail)
  unfolding pop take_first
  pop_refines q v = ground (arith, ring-cons capacity q.buffer q.head q.tail, length-contents q)

  -- `Size` and `IsEmpty` agree with the contents.
  pub size-length :
      (q : SpscQueue A capacity)
      → IsValid q
      → (size q ≡ length (contents q)) × (is_empty q ≡ (length (contents q) == 0))
  unfolding size is_empty
  size-length q v = ground (arith, length-contents q, sub64_le q.tail q.head v.ordered v.unwrapped)

  -- The queue behind the contract of `Fifo`.
  abbrev pub implementation : Implementation A capacity
  implementation = record {
    Queue = SpscQueue A capacity;
    push = push;
    pop = pop;
    contents = contents;
    IsValid = λ n q. IsValid q × (q.tail + n < 2 ^ 64);
    push_refines =
        λ n q a v. let r = push_refines q a v.0 (omega arith) in (r.0, (r.1, omega arith));
    pop_refines = λ n q v. let r = pop_refines q v.0 in (r.0, (r.1, omega arith));
  }

  -- The replies to any sequence of pushes and pops on a valid SpscQueue are those of a bounded list that
  -- is appended to at its end and taken from at its front, unless the tail index wraps on the way.
  pub spsc_replies-run :
      (q : SpscQueue A capacity) (ops : List (Op A))
      → IsValid q
      → q.tail + length ops < 2 ^ 64
      → replies implementation q ops ≡ run capacity (contents q) ops
  spsc_replies-run q ops v small = replies-run implementation ops q (v, small)
