-- ===== src/Common/MpscQueue/Refine.antt =====
-- While its calls do not overlap, an MPSCQueue is a bounded first-in first-out queue.
use native.Mathlib.Decide.{dec_lt}
use native.Mathlib.Nat.{add-mod_right}
use mmorpg_server.Common.Fifo.{
  put, take_first, Implementation, Op, run, replies, replies-run, take_first-none, take_first-some,
}
use mmorpg_server.Common.MpscQueue.{
  MpscQueue, push, push_and_check_was_empty, pop, pop_batch, is_empty, approximate_size,
}
use mmorpg_server.Base.{
  suc, zero, ℕ, arith, ◌≤◌, List, length, leb, ◌+◌, ◌<◌, ◌^◌, ring, ◌≡◌, sub64, add64, ◌-◌, not,
  update, ◌%◌, true, length-slice, ltb, false, sub64_le, mod-ne, ◌++◌, Bool-cases, ◌&&◌, ring-cons,
  take, ◌==◌, inl, drop, ◌∷◌, refl, [], ltb→lt, inr, suc, ring-push, ap, Option-cases, sym, ◌∙◌,
}

module _ {ℓ} {A : Type ℓ} {capacity : ℕ} where
  -- The flags mark the entries from `Head_` to `Tail_`, and no other slot.
  pub record IsValid (q : MpscQueue A capacity) : Type 0 where
    pub ordered : q.head ≤ q.tail
    pub bounded : q.tail ≤ q.head + capacity
    pub unwrapped : q.tail < 2 ^ 64
    pub filled : (i : ℕ) → q.head ≤ i → i < q.tail → q.slots (i % capacity) ≡ true
    pub vacant : (i : ℕ) → q.tail ≤ i → i < q.head + capacity → q.slots (i % capacity) ≡ false
    pub positive : 0 < capacity

  abbrev pub contents : MpscQueue A capacity → List A
  contents q = ring capacity q.buffer q.head (q.tail - q.head)

  pub length-contents : (q : MpscQueue A capacity) → length (contents q) ≡ q.tail - q.head
  length-contents q = length-slice (λ i. q.buffer (i % capacity)) q.head (q.tail - q.head)

  -- The test of `Push` on the two indices is a test on the number of entries.
  full_iff :
      (q : MpscQueue A capacity)
      → IsValid q
      → leb capacity (sub64 q.tail q.head) ≡ not (ltb (length (contents q)) capacity)
  full_iff q v = ground (arith, length-contents q, sub64_le q.tail q.head v.ordered v.unwrapped)

  push-IsValid :
      (q : MpscQueue A capacity) (item : A)
      → IsValid q
      → q.tail + 1 < 2 ^ 64
      → q.tail - q.head < capacity
      → IsValid (record q {
        tail = add64 q.tail 1;
        buffer = update q.buffer (q.tail % capacity) item;
        slots = update q.slots (q.tail % capacity) true;
      })
  push-IsValid q item v small room = record {
    ordered = omega arith;
    bounded = omega arith;
    unwrapped = omega arith;
    filled = λ i lo hi. ground (arith, v.filled i lo);
    vacant = λ i lo hi. ground (arith, v.vacant i, mod-ne q.tail i capacity);
    positive = v.positive;
  }

  pop-IsValid :
      (q : MpscQueue A capacity)
      → IsValid q
      → q.head < q.tail
      → IsValid
          (record q { head = add64 q.head 1; slots = update q.slots (q.head % capacity) false })
  pop-IsValid q v some_entry = record {
    ordered = omega arith;
    bounded = omega arith;
    unwrapped = v.unwrapped;
    filled = λ i lo hi. ground (arith, v.filled i, mod-ne q.head i capacity);
    vacant = λ i lo hi. ground (arith, v.vacant i, add-mod_right q.head capacity);
    positive = v.positive;
  }

  contents-push :
      (q : MpscQueue A capacity) (item : A)
      → IsValid q
      → q.tail + 1 < 2 ^ 64
      → length (contents q) < capacity
      → ring capacity (update q.buffer (q.tail % capacity) item) q.head (add64 q.tail 1 - q.head)
        ≡ contents q ++ item ∷ []
  contents-push q item v small h =
      let len : add64 q.tail 1 - q.head ≡ q.tail - q.head + 1 = omega arith in
      rw len (
        ring-push capacity q.buffer q.head q.tail (q.tail - q.head) item (omega arith)
          (omega (arith, length-contents q)))

  rolled_back : (q : MpscQueue A capacity) → q.tail + 1 < 2 ^ 64 → sub64 (add64 q.tail 1) 1 ≡ q.tail
  rolled_back q small = omega arith

  -- `Push` appends the item, or leaves a full queue as it was and returns false.
  pub push_refines :
      (q : MpscQueue A capacity) (item : A)
      → IsValid q
      → q.tail + 1 < 2 ^ 64
      → (((push q item).0, contents (push q item).1) ≡ put capacity (contents q) item)
        × IsValid (push q item).1
        × ((push q item).1.tail ≤ q.tail + 1)
  unfolding push put
  push_refines q item v small =
      let e = full_iff q v in
      elim (Bool-cases (ltb (length (contents q)) capacity)) [
        | inl room ↦
            let h = ltb→lt _ _ room in
            rw (e, room)
              (
                ap (λ xs. (true, xs)) (contents-push q item v small h),
                push-IsValid q item v small (omega (arith, length-contents q)),
                omega arith,
              )
        | inr full ↦ rw (e, full, rolled_back q small) (refl, v, omega arith)
      ]

  -- `PushAndCheckWasEmpty` changes a valid queue as `Push` does, and returns true exactly when
  -- the push succeeds on an empty queue.
  pub push_and_check_was_empty_lem :
      (q : MpscQueue A capacity) (item : A)
      → IsValid q
      → ((push_and_check_was_empty q item).1 ≡ (push q item).1)
        × ((push_and_check_was_empty q item).0 ≡ ((push q item).0 && length (contents q) == 0))
  unfolding push_and_check_was_empty push
  push_and_check_was_empty_lem q item v =
      let e = full_iff q v in
      elim (Bool-cases (ltb (length (contents q)) capacity)) [
        | inl room ↦ rw (e, room) (refl, ground (arith, length-contents q))
        | inr full ↦ rw (e, full) (refl, refl)
      ]

  -- `Pop` takes the oldest entry, and fails on an empty queue only.
  pub pop_refines :
      (q : MpscQueue A capacity)
      → IsValid q
      → (((pop q).0, contents (pop q).1) ≡ take_first (contents q))
        × IsValid (pop q).1
        × ((pop q).1.tail ≡ q.tail)
  unfolding pop take_first
  pop_refines q v = elim (dec_lt q.head q.tail) [
    | yes h ↦
        let next : add64 q.head 1 ≡ q.head + 1 = omega arith in
        rw (v.filled q.head (omega arith) h, ring-cons capacity q.buffer q.head q.tail h)
          (rw next refl, pop-IsValid q v h, refl)
    | no h ↦
        let empty : q.tail - q.head ≡ 0 = omega arith in
        rw (v.vacant q.head (omega arith) (omega arith), empty) (refl, v, refl)
  ]

  -- `PopBatch` on a valid queue takes the oldest entries, `max_count` of them or all that there
  -- are, in order; the queue stays valid and its tail where it was.
  pub pop_batch_lem :
      (n : ℕ) (q : MpscQueue A capacity)
      → IsValid q
      → ((pop_batch n q).0 ≡ take n (contents q))
        × (contents (pop_batch n q).1 ≡ drop n (contents q))
        × IsValid (pop_batch n q).1
        × ((pop_batch n q).1.tail ≡ q.tail)
  unfolding pop_batch take_first
  pop_batch_lem zero q v = (refl, refl, v, refl)
  pop_batch_lem (suc n) q v =
      let r = pop_refines q v in
      elim (Option-cases (pop q).0) [
        | inl out ↦
            rw
              (
                out,
                pop_batch,
                take_first-none (contents q) (ap (λ o. (o, contents (pop q).1)) (sym out) ∙ r.0),
              )
              (refl, refl, v, refl)
        | inr (x, out) ↦
            let rest = pop_batch_lem n (pop q).1 r.1 in
            rw
              (
                out,
                pop_batch,
                take_first-some (contents q) (ap (λ o. (o, contents (pop q).1)) (sym out) ∙ r.0),
              )
              (ap (λ t. x ∷ t) rest.0, rest.1, rest.2, rest.3 ∙ r.2)
      ]

  -- `ApproximateSize` and `IsEmpty` agree with the contents.
  pub size-length :
      (q : MpscQueue A capacity)
      → IsValid q
      → (approximate_size q ≡ length (contents q)) × (is_empty q ≡ (length (contents q) == 0))
  unfolding approximate_size is_empty
  size-length q v = ground (
    arith,
    length-contents q,
    sub64_le q.tail q.head v.ordered v.unwrapped,
    v.filled q.head,
    v.vacant q.head,
  )

  -- The queue behind the contract of `Fifo`.
  abbrev pub implementation : Implementation A capacity
  implementation = record {
    Queue = MpscQueue A capacity;
    push = push;
    pop = pop;
    contents = contents;
    IsValid = λ n q. IsValid q × (q.tail + n < 2 ^ 64);
    push_refines =
        λ n q a v. let r = push_refines q a v.0 (omega arith) in (r.0, (r.1, omega arith));
    pop_refines = λ n q v. let r = pop_refines q v.0 in (r.0, (r.1, omega arith));
  }

  -- The replies to any sequence of pushes and pops on a valid MpscQueue are those of a bounded list that
  -- is appended to at its end and taken from at its front, unless the tail index wraps on the way.
  pub mpsc_replies-run :
      (q : MpscQueue A capacity) (ops : List (Op A))
      → IsValid q
      → q.tail + length ops < 2 ^ 64
      → replies implementation q ops ≡ run capacity (contents q) ops
  mpsc_replies-run q ops v small = replies-run implementation ops q (v, small)
