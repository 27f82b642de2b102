-- ===== src/Common/PacketPool/Exclusive.antt =====
-- What a caller of CPacketBufferPool may rely on: a buffer of its own from each `Acquire`, and a
-- second `Release` without effect.
use mmorpg_server.Base.{
  ℕ, zero, suc, arith, Option, ◌<◌, ◌≡◌, List, some, false, count, ◌≢◌, true, [], ◌∷◌, ap, refl,
  List-cases, inl, inr, sym, set, ◌∙◌, length, get_or, take, drop, ◌≤◌, flatten, count-take-drop,
  count-flatten-set, drop-nil,
}
use mmorpg_server.Common.LockingStack
use mmorpg_server.Common.Types.{buffer_pool_expand_size}
use mmorpg_server.Common.PacketPool.{
  PacketPool, PacketBuffer, mark_allocated, count_use, construct, addresses,
  allocate_new_page_internal, pop_retry, double_check, allocate_new_page_and_pop, acquire_cached,
  acquire, batch_size,
}
use mmorpg_server.Common.PacketPool.Conservation.{
  IsConserved, idle, count-push_batch, count-addresses, pop_batch-take, refill-IsConserved,
}

-- The call returns a buffer that nobody had, empty and marked, and touches no other.
pub record Grants (buffers : ℕ → PacketBuffer) (next : ℕ) (r : Option ℕ × PacketPool) : Type 0 where
  pub buf : ℕ
  pub returned : r.0 ≡ some buf
  pub was_idle : (buffers buf).is_allocated ≡ false
  pub marked : (r.1.buffers buf).is_allocated ≡ true
  pub is_empty : (r.1.buffers buf).size ≡ 0
  pub others : (c : ℕ) → c < next → c ≢ buf → r.1.buffers c ≡ buffers c

-- A buffer that stands in a list is not allocated, and has been constructed.
idle_not_in_use :
    (p : PacketPool) (buf : ℕ)
    → IsConserved p
    → 0 < idle p buf
    → ((p.buffers buf).is_allocated ≡ false) × (buf < p.next)
idle_not_in_use p buf v h = ground (arith, v buf)

mark_allocated-Grants :
    (p q : PacketPool) (buf : ℕ)
    → (p.buffers buf).is_allocated ≡ false
    → ((c : ℕ) → c < p.next → q.buffers c ≡ p.buffers c)
    → Grants p.buffers p.next (some buf, mark_allocated q buf)
unfolding mark_allocated count_use
mark_allocated-Grants p q buf idle_before same = record {
  buf = buf;
  returned = refl;
  was_idle = idle_before;
  marked = ground arith;
  is_empty = ground arith;
  others = λ c old other. ground (arith, same c old);
}

pub count_head : (x : ℕ) (xs : List ℕ) → 0 < count x (x ∷ xs)
count_head x xs = ground arith

pub push_batch-ne-nil :
    (container items : List ℕ) → items ≢ [] → LockingStack.push_batch container items ≢ []
unfolding LockingStack.push_batch
push_batch-ne-nil container [] h e = absurd (h refl)
push_batch-ne-nil container (x ∷ xs) h e =
    omega (arith, count-push_batch x container (x ∷ xs), count_head x xs, ap (count x) e)

pub page_free_list :
    (p : PacketPool) (n : ℕ)
    → (allocate_new_page_internal p n).free_list
      ≡ LockingStack.push_batch p.free_list (addresses p.next n)
unfolding allocate_new_page_internal count_use
page_free_list p n = ground arith

pub page_keeps :
    (p : PacketPool) (n c : ℕ)
    → c < p.next
    → (allocate_new_page_internal p n).buffers c ≡ p.buffers c
unfolding allocate_new_page_internal construct count_use
page_keeps p n c old = ground arith

-- What stands in the free list after an expansion of a pool with nothing free is new.
page_fresh :
    (p : PacketPool) (n buf : ℕ) (rest : List ℕ)
    → p.free_list ≡ []
    → IsConserved p
    → (allocate_new_page_internal p n).free_list ≡ buf ∷ rest
    → (p.buffers buf).is_allocated ≡ false
page_fresh p n buf rest nothing v e = ground (
  arith,
  v buf,
  ap (count buf) (sym (page_free_list p n) ∙ e),
  count_head buf rest,
  ap (count buf) nothing,
  count-push_batch buf p.free_list (addresses p.next n),
  count-addresses buf p.next n,
)

pub addresses-ne-nil : (first n : ℕ) → 0 < n → addresses first n ≢ []
unfolding addresses
addresses-ne-nil first zero h e = absurd (omega arith)
addresses-ne-nil first (suc n) h e = cc

-- After an expansion the first retry finds one of the new buffers.
expand-Grants :
    (p : PacketPool) (n rounds : ℕ)
    → 0 < n
    → p.free_list ≡ []
    → IsConserved p
    → Grants p.buffers p.next (pop_retry (suc rounds) (allocate_new_page_internal p n))
unfolding pop_retry
expand-Grants p n rounds some_page nothing v =
    let q = allocate_new_page_internal p n in
    elim (List-cases q.free_list) [
      | inl e ↦ absurd (
          push_batch-ne-nil p.free_list (addresses p.next n) (addresses-ne-nil p.next n some_page)
            (sym (page_free_list p n) ∙ e))
      | inr (buf, rest, e) ↦
          rw (e, pop_retry)
            (mark_allocated-Grants p (record q { free_list = rest }) buf
              (page_fresh p n buf rest nothing v e) (page_keeps p n))
    ]

allocate-Grants :
    (p : PacketPool)
    → p.free_list ≡ []
    → IsConserved p
    → Grants p.buffers p.next (allocate_new_page_and_pop p)
unfolding allocate_new_page_and_pop double_check
allocate-Grants p nothing v =
    let unchanged : double_check p ≡ p = simp (nothing, double_check) in
    rw unchanged (expand-Grants p buffer_pool_expand_size 4 (omega arith) nothing v)

-- From a cache, or from the expansion if nothing is free.
acquire_cached-Grants :
    (p q : PacketPool) (thread : ℕ) (cache : List ℕ)
    → ((buf : ℕ) → 0 < count buf cache → (p.buffers buf).is_allocated ≡ false)
    → (cache ≡ [] → Grants p.buffers p.next (allocate_new_page_and_pop q))
    → q.buffers ≡ p.buffers
    → Grants p.buffers p.next (acquire_cached q thread cache)
unfolding acquire_cached
acquire_cached-Grants p q thread [] waiting expand same = expand refl
acquire_cached-Grants p q thread (buf ∷ rest) waiting expand same =
    mark_allocated-Grants p (record q { caches = set q.caches thread rest }) buf
      (waiting buf (count_head buf rest)) (λ c old. ap (λ m. m c) same)

pub count-get_or-le :
    (b : ℕ) (xss : List (List ℕ)) (i : ℕ)
    → i < length xss
    → count b (get_or xss i []) ≤ count b (flatten xss)
count-get_or-le b xss i h = omega (arith, count-flatten-set b xss i [] h)

-- `Acquire` by a thread that has a cache, on a pool that holds each of its buffers exactly
-- once, returns a buffer. The buffer was not in use, is empty and marked as in use afterwards,
-- and the call leaves every other buffer as it was.
pub acquire-Grants :
    (p : PacketPool) (thread : ℕ)
    → thread < length p.caches
    → IsConserved p
    → Grants p.buffers p.next (acquire p thread)
unfolding acquire
acquire-Grants p thread here v = elim (List-cases (get_or p.caches thread [])) [
  | inr (buf, rest, e) ↦
      rw (e, acquire)
        (acquire_cached-Grants p p thread (buf ∷ rest)
          (λ b h.
            (idle_not_in_use p b v
              (omega (arith, count-get_or-le b p.caches thread here, ap (count b) e))).0)
          (λ none_left. cc) refl)
  | inl e ↦
      let (k, cache, free, all) = pop_batch-take p.free_list batch_size (omega arith) in
      let q : PacketPool = record p {
        free_list = drop k p.free_list;
        caches = set p.caches thread (take k p.free_list);
      } in
      rw (e, acquire, cache, free)
        (acquire_cached-Grants p q thread (take k p.free_list)
          (λ b h. (idle_not_in_use p b v (omega (arith, count-take-drop b k p.free_list))).0)
          (λ none_left.
            let left = ap (drop k) (all none_left) in
            let g =
              allocate-Grants q (left ∙ drop-nil k) (refill-IsConserved p thread k here e v) in
            record {
              buf = g.buf;
              returned = g.returned;
              was_idle = g.was_idle;
              marked = g.marked;
              is_empty = g.is_empty;
              others = g.others;
            })
          refl)
]
