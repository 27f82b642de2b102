-- ===== src/Common/MpscQueue/Overlap/Safety.antt =====
-- What overlapping calls of an MPSCQueue guarantee as long as every `fetch_sub` takes back the ticket
-- that was given out last, and what becomes of a queue when one does not.
use native.Mathlib.Decide.{dec_lt}
use mmorpg_server.Base.{
  [], ℕ, none, arith, List, ◌<◌, ◌+◌, length, ◌^◌, ◌≤◌, ◌≡◌, ◌%◌, true, slice, false, ◌≢◌, ◌-◌,
  sub64, ◌++◌, inl, ap₂, add64, inr, ◌∙◌, leb, sym, ◌∷◌, ap, refl, slice_ext, slice-add, map,
}
use mmorpg_server.Common.MpscQueue.{MpscQueue, push, pop}
use mmorpg_server.Common.MpscQueue.Refine.{IsValid, contents, implementation}
use mmorpg_server.Common.Fifo.{Op, puts, takes, replies, Reply, did_put, did_take}
use mmorpg_server.Common.MpscQueue.Overlap.{
  System, idle, pushing, Stage, ready, Event, start, run, is_orderly,
}
use mmorpg_server.Common.MpscQueue.Overlap.Invariant.{
  Inv, Holds-of, slot-ne, ticket-ne, has_room, is_cleared,
}
use mmorpg_server.Common.MpscQueue.Overlap.Steps.{run-Inv, start-Inv}

module _ {ℓ} {A : Type ℓ} where
  abbrev pub refusal : Op A → Reply A
  refusal (puts item) = did_put false
  refusal takes = did_take none

module _ {ℓ} {A : Type ℓ} {capacity : ℕ} where
  reached-Inv :
      (empty : A) (events : List (Event A))
      → 0 < capacity
      → length events < 2 ^ 64
      → is_orderly events (start capacity empty) ≡ true
      → Inv (0 + length events) (run events (start capacity empty))
  reached-Inv empty events positive small orderly =
      run-Inv 0 events (start capacity empty) (start-Inv empty positive) (omega arith) orderly

  -- After any steps of overlapping calls from an empty queue, fewer than 2 ^ 64, in which every
  -- `fetch_sub` takes back the ticket that was given out last, two threads inside `Push` have
  -- different tickets; one that has passed the test on the head has a place of the ring whose
  -- flag is not set, and two such threads have different places.
  pub overlap-exclusive :
      (empty : A) (events : List (Event A))
      → 0 < capacity
      → length events < 2 ^ 64
      → is_orderly events (start capacity empty) ≡ true
      → (p r : ℕ) (a b : Stage) (t u : ℕ) (x y : A) → p ≢ r
      → (run events (start capacity empty)).producers p ≡ pushing a t x
      → (run events (start capacity empty)).producers r ≡ pushing b u y
      → (t ≢ u)
        × (has_room a ≡ true
            → ((run events (start capacity empty)).queue.slots (t % capacity) ≡ false)
              × (has_room b ≡ true → t % capacity ≢ u % capacity))
  overlap-exclusive empty events positive small orderly p r a b t u x y other e f =
      let s = run events (start capacity empty) in
      let inv = reached-Inv empty events positive small orderly in
      let h = Holds-of s p a t x (inv.holds p) e in
      let k = Holds-of s r b u y (inv.holds r) f in
      (
        ticket-ne s p r a b t u x y h k other,
        λ m. (h.unset (h.room m), λ m'. slot-ne s p r a b t u x y h k other (h.room m) (k.room m')),
      )

  -- Without a call in progress the invariant is that of the calls that do not overlap.
  Inv-IsValid :
      (n : ℕ) (s : System A capacity)
      → Inv n s
      → n < 2 ^ 64
      → ((p : ℕ) → s.producers p ≡ idle)
      → s.consumer ≡ ready
      → IsValid s.queue
        × (contents s.queue ≡ slice s.log s.queue.head (s.queue.tail - s.queue.head))
  Inv-IsValid n s inv small out back =
      let set : (t : ℕ)
          → s.queue.head ≤ t
          → t < s.queue.tail
          → (t < s.queue.head + capacity) × (s.queue.slots (t % capacity) ≡ true) =
        λ t lo hi. elim (inv.accounted t lo hi) [
          | inl there ↦ there
          | inr (inl (stage, x, e)) ↦
              let q : idle ≡ pushing stage t x = sym (out (s.owners t)) ∙ e in cc
          | inr (inr (c, same)) ↦ let q : false ≡ true = sym (ap is_cleared back) ∙ c in cc
        ] in
      (
        record {
          ordered = inv.ordered;
          bounded = elim (dec_lt s.queue.head s.queue.tail) [
            | yes lt ↦ omega (arith, (set (s.queue.tail - 1) (omega arith) (omega arith)).0)
            | no empty ↦ omega (arith, inv.ordered)
          ];
          unwrapped = omega (arith, inv.counted);
          filled = λ t lo hi. (set t lo hi).1;
          vacant = inv.vacant;
          positive = inv.positive;
        },
        slice_ext (λ i. s.queue.buffer (i % capacity)) s.log s.queue.head s.queue.head
            (s.queue.tail - s.queue.head)
            (λ k lt.
              let lo : s.queue.head ≤ s.queue.head + k = omega arith in
              let hi : s.queue.head + k < s.queue.tail = omega (arith, lt) in
              let there = set (s.queue.head + k) lo hi in
              inv.filled (s.queue.head + k) lo hi there.0 there.1),
      )

  -- At any moment of such steps `Pop` has returned the items of the tickets below the head,
  -- each once, in the order of the tickets.
  pub overlap-delivers :
      (empty : A) (events : List (Event A))
      → 0 < capacity
      → length events < 2 ^ 64
      → is_orderly events (start capacity empty) ≡ true
      → (let s = run events (start capacity empty) in
          (s.popped ≡ slice s.log 0 s.queue.head) × (s.queue.head ≤ s.queue.tail))
  overlap-delivers empty events positive small orderly =
      let inv = reached-Inv empty events positive small orderly in (inv.delivered, inv.ordered)

  -- After any steps of overlapping calls from an empty queue, fewer than 2 ^ 64, in which every
  -- `fetch_sub` takes back the ticket that was given out last, if no call is in progress the
  -- queue is a valid bounded queue, and what `Pop` has returned followed by its contents are
  -- the items of all tickets in order: no item is lost, doubled or overtaken.
  pub overlap-keeps :
      (empty : A) (events : List (Event A))
      → 0 < capacity
      → length events < 2 ^ 64
      → is_orderly events (start capacity empty) ≡ true
      → ((p : ℕ) → (run events (start capacity empty)).producers p ≡ idle)
      → (run events (start capacity empty)).consumer ≡ ready
      → (let s = run events (start capacity empty) in
          IsValid s.queue × (s.popped ++ contents s.queue ≡ slice s.log 0 s.queue.tail))
  overlap-keeps empty events positive small orderly out back =
      let s = run events (start capacity empty) in
      let inv = reached-Inv empty events positive small orderly in
      let (valid, kept) = Inv-IsValid (0 + length events) s inv (omega arith) out back in
      let zero_first : s.queue.head ≡ 0 + s.queue.head = omega arith in
      let total : s.queue.head + (s.queue.tail - s.queue.head) ≡ s.queue.tail =
        omega (arith, inv.ordered) in
      (
        valid,
        ap₂ ◌++◌ inv.delivered
              (kept ∙ ap (λ i. slice s.log i (s.queue.tail - s.queue.head)) zero_first)
            ∙ sym (slice-add s.log 0 s.queue.head (s.queue.tail - s.queue.head))
            ∙ ap (slice s.log 0) total,
      )

  push_pop-stuck :
      (q : MpscQueue A capacity) (item : A)
      → q.head + capacity ≤ q.tail
      → q.tail + 1 < 2 ^ 64
      → q.slots (q.head % capacity) ≡ false
      → (push q item ≡ (false, q)) × (pop q ≡ (none, q))
  unfolding push pop
  push_pop-stuck q item full small unset =
      let back : sub64 (add64 q.tail 1) 1 ≡ q.tail = omega arith in
      let no_room : leb capacity (sub64 q.tail q.head) ≡ true = ground arith in
      (rw (no_room, back) refl, rw unset refl)

  -- An MPSCQueue with as many tickets given out as it has places or more (below 2 ^ 64), while
  -- the flag of its oldest ticket is not set, refuses every push and every pop of any sequence
  -- of calls that do not overlap, for good.
  pub replies-stuck :
      (q : MpscQueue A capacity) (ops : List (Op A))
      → q.head + capacity ≤ q.tail
      → q.tail + 1 < 2 ^ 64
      → q.slots (q.head % capacity) ≡ false
      → replies implementation q ops ≡ map refusal ops
  unfolding replies
  replies-stuck q [] full small unset = refl
  replies-stuck q (puts item ∷ ops) full small unset =
      rw (push_pop-stuck q item full small unset).0
        (ap (λ rest. did_put false ∷ rest) (replies-stuck q ops full small unset))
  replies-stuck q (takes ∷ ops) full small unset =
      rw (push_pop-stuck q (q.buffer 0) full small unset).1
        (ap (λ rest. did_take none ∷ rest) (replies-stuck q ops full small unset))
