-- ===== src/Common/MpscQueue/Overlap.antt =====
-- MPSCQueue of Source/Core/Common/LockFreeQueue.h when its calls overlap: any number of producers
-- inside `Push` and the one consumer inside `Pop`, each access to a shared variable a step of its
-- own. The accesses take effect in one order (the acquire and release of the source).
-- `log`, `owners` and `popped` are not in the source: the item and the producer of the call that took
-- a ticket, and the items that `Pop` has returned, the first one first.
pub mod Invariant
pub mod Produce
pub mod Finish
pub mod Consume
pub mod Steps
pub mod Safety
use mmorpg_server.Base.{
  [], ℕ, none, some, arith, List, add64, leb, update, sub64, Bool, if◌then◌else◌, ◌%◌, true, false,
  ◌++◌, ◌∷◌, ◌&&◌, ◌==◌, ◌+◌,
}
use mmorpg_server.Common.MpscQueue.{MpscQueue, new_mpsc_queue}

-- Where a call of `Push` stands: behind the `fetch_add`, behind the test on the head with either
-- outcome, behind the write to the buffer.
pub data Stage : Type 0 where
  reserved : Stage
  admitted : Stage
  refused : Stage
  written : Stage

-- A thread outside `Push`, or inside it with its locals `tail` and `item`.
pub data Producer {ℓ} (A : Type ℓ) : Type ℓ where
  idle : Producer A
  pushing : Stage → ℕ → A → Producer A

-- Where the call of `Pop` stands: outside it, behind the test of the flag, behind the read of the
-- buffer, behind the reset of the flag.
pub data Consumer {ℓ} (A : Type ℓ) : Type ℓ where
  ready : Consumer A
  found : Consumer A
  taken : A → Consumer A
  cleared : A → Consumer A

pub record System {ℓ} (A : Type ℓ) (capacity : ℕ) : Type ℓ where
  pub queue : MpscQueue A capacity
  pub producers : ℕ → Producer A
  pub consumer : Consumer A
  pub log : ℕ → A
  pub owners : ℕ → ℕ
  pub popped : List A

-- The next access of a producer, which starts a call with the item if it is outside `Push`, or of
-- the consumer.
pub data Event {ℓ} (A : Type ℓ) : Type ℓ where
  produces : ℕ → A → Event A
  consumes : Event A

module _ {ℓ} {A : Type ℓ} where
  unfoldable pub start : (capacity : ℕ) → A → System A capacity
  start capacity empty = record {
    queue = new_mpsc_queue capacity empty;
    producers = λ _. idle;
    consumer = ready;
    log = λ _. empty;
    owners = λ _. 0;
    popped = [];
  }

module _ {ℓ} {A : Type ℓ} {capacity : ℕ} where
  -- `size_t tail = Tail_.Value.fetch_add(1)`
  unfoldable pub reserve : ℕ → A → System A capacity → System A capacity
  reserve p item s =
      let q = s.queue in
      record s {
        queue = record q { tail = add64 q.tail 1 };
        producers = update s.producers p (pushing reserved q.tail item);
        log = update s.log q.tail item;
        owners = update s.owners q.tail p;
      }

  -- `if (tail - Head_.Value.load() >= Capacity)`
  unfoldable pub check_room : ℕ → ℕ → A → System A capacity → System A capacity
  check_room p tail item s =
      let full = leb capacity (sub64 tail s.queue.head) in
      record s {
        producers =
            update s.producers p
              (if full then pushing refused tail item else pushing admitted tail item);
      }

  -- `Buffer_[index] = item`
  unfoldable pub write_item : ℕ → ℕ → A → System A capacity → System A capacity
  write_item p tail item s =
      let q = s.queue in
      record s {
        queue = record q { buffer = update q.buffer (tail % capacity) item };
        producers = update s.producers p (pushing written tail item);
      }

  -- `Slots_[index].store(true)` and `return true`
  unfoldable pub publish : ℕ → ℕ → System A capacity → System A capacity
  publish p tail s =
      let q = s.queue in
      record s {
        queue = record q { slots = update q.slots (tail % capacity) true };
        producers = update s.producers p idle;
      }

  -- `Tail_.Value.fetch_sub(1)` and `return false`
  unfoldable pub roll_back : ℕ → System A capacity → System A capacity
  roll_back p s =
      let q = s.queue in
      record s { queue = record q { tail = sub64 q.tail 1 }; producers = update s.producers p idle }

  unfoldable pub produce_in : ℕ → A → Producer A → System A capacity → System A capacity
  produce_in p item idle s = reserve p item s
  produce_in p item (pushing reserved tail x) s = check_room p tail x s
  produce_in p item (pushing admitted tail x) s = write_item p tail x s
  produce_in p item (pushing refused tail x) s = roll_back p s
  produce_in p item (pushing written tail x) s = publish p tail s

  -- `if (!Slots_[index].load()) return false`
  unfoldable pub find_item : System A capacity → System A capacity
  find_item s =
      let q = s.queue in
      record s { consumer = if q.slots (q.head % capacity) then found else ready }

  -- `out_item = Buffer_[index]`
  unfoldable pub take_item : System A capacity → System A capacity
  take_item s = let q = s.queue in record s { consumer = taken (q.buffer (q.head % capacity)) }

  -- `Slots_[index].store(false)`
  unfoldable pub clear_slot : A → System A capacity → System A capacity
  clear_slot item s =
      let q = s.queue in
      record s {
        queue = record q { slots = update q.slots (q.head % capacity) false };
        consumer = cleared item;
      }

  -- `Head_.Value.store(head + 1)` and `return true`
  unfoldable pub advance_head : A → System A capacity → System A capacity
  advance_head item s =
      let q = s.queue in
      record s {
        queue = record q { head = add64 q.head 1 };
        consumer = ready;
        popped = s.popped ++ item ∷ [];
      }

  unfoldable pub consume_in : Consumer A → System A capacity → System A capacity
  consume_in ready s = find_item s
  consume_in found s = take_item s
  consume_in (taken item) s = clear_slot item s
  consume_in (cleared item) s = advance_head item s

  unfoldable pub step : Event A → System A capacity → System A capacity
  step (produces p item) s = produce_in p item (s.producers p) s
  step consumes s = consume_in s.consumer s

  unfoldable pub run : List (Event A) → System A capacity → System A capacity
  run [] s = s
  run (e ∷ events) s = run events (step e s)

  unfoldable pub rolls_back_latest_in : Producer A → System A capacity → Bool
  rolls_back_latest_in idle s = true
  rolls_back_latest_in (pushing reserved tail x) s = true
  rolls_back_latest_in (pushing admitted tail x) s = true
  rolls_back_latest_in (pushing refused tail x) s = s.queue.tail == tail + 1
  rolls_back_latest_in (pushing written tail x) s = true

  -- The step is no `fetch_sub`, or it takes back the ticket that was given out last.
  unfoldable pub rolls_back_latest : Event A → System A capacity → Bool
  rolls_back_latest (produces p item) s = rolls_back_latest_in (s.producers p) s
  rolls_back_latest consumes s = true

  -- No ticket is given out between the `fetch_add` and the `fetch_sub` of a `Push` that is refused.
  unfoldable pub is_orderly : List (Event A) → System A capacity → Bool
  is_orderly [] s = true
  is_orderly (e ∷ events) s = rolls_back_latest e s && is_orderly events (step e s)
