-- ===== src/Common/PacketPool/Conservation.antt =====
-- No buffer of CPacketBufferPool is lost or made up: each one that exists is in the free list, in
-- one thread's cache, or allocated, and in only one of these places, once.
use mathlib.Core.List.{reverse, reverse-cons, List, flatten, ◌∷◌, [], append-nil}
use mmorpg_server.Base.{
  ℕ, zero, suc, arith, count, ◌≡◌, if◌then◌else◌, ◌+◌, ltb, leb, false, ◌==◌, ◌&&◌, [], refl,
  count-append, ap, inl, ◌<◌, inr, length, get_or, take, set, drop, count-take-drop,
  count-flatten-set, length-set, Bool-cases, get_or-set_self, update, sub64, lt→ltb, List-cases,
  length-take,
}
use mmorpg_server.Common.LockingStack
use mmorpg_server.Common.PacketPool.{
  PacketPool, mark_allocated, count_use, construct, addresses, allocate_new_page_internal,
  pop_retry, double_check, allocate_new_page_and_pop, acquire_cached, acquire, give_back, release,
  batch_size, local_cache_capacity,
}

-- How often a buffer stands in the free list and the caches.
abbrev pub idle : PacketPool → ℕ → ℕ
idle p b = count b p.free_list + count b (flatten p.caches)

abbrev pub in_use : PacketPool → ℕ → ℕ
in_use p b = if (p.buffers b).is_allocated then 1 else 0

abbrev pub exists : PacketPool → ℕ → ℕ
exists p b = if ltb b p.next then 1 else 0

abbrev pub IsConserved : PacketPool → Type 0
IsConserved p = (b : ℕ) → idle p b + in_use p b ≡ exists p b

pub count-reverse : (b : ℕ) (xs : List ℕ) → count b (reverse xs) ≡ count b xs
count-reverse b [] = refl
count-reverse b (x ∷ xs) =
    rw (reverse-cons x xs) (omega (arith, count-append b (reverse xs) (x ∷ []), count-reverse b xs))

pub count-push_batch :
    (b : ℕ) (container items : List ℕ)
    → count b (LockingStack.push_batch container items) ≡ count b container + count b items
unfolding LockingStack.push_batch
count-push_batch b container [] = omega arith
count-push_batch b container (x ∷ xs) =
    omega (arith, count-append b (reverse (x ∷ xs)) container, count-reverse b (x ∷ xs))

pub count-addresses :
    (b first n : ℕ)
    → count b (addresses first n) ≡ (if leb first b && ltb b (first + n) then 1 else 0)
unfolding addresses
count-addresses b first zero = ground arith
count-addresses b first (suc n) = ground (arith, count-addresses b (first + 1) n)

-- `count_use` is about the counters only.
pub count_use-keeps :
    (p : PacketPool)
    → ((count_use p).buffers ≡ p.buffers)
      × ((count_use p).free_list ≡ p.free_list)
      × ((count_use p).caches ≡ p.caches)
      × ((count_use p).next ≡ p.next)
unfolding count_use
count_use-keeps p = ground arith

-- A buffer that has just been taken out of a list becomes allocated.
pub mark_allocated-idle :
    (p : PacketPool) (buf b : ℕ)
    → (p.buffers buf).is_allocated ≡ false
    → (idle (mark_allocated p buf) b ≡ idle p b)
      × (in_use (mark_allocated p buf) b ≡ in_use p b + (if buf == b then 1 else 0))
      × (exists (mark_allocated p buf) b ≡ exists p b)
unfolding mark_allocated count_use
mark_allocated-idle p buf b h = ground arith

-- Moving a buffer from the lists to allocated.
take-IsConserved :
    (p q : PacketPool) (buf : ℕ)
    → IsConserved p
    → ((b : ℕ) → idle q b + (if buf == b then 1 else 0) ≡ idle p b)
    → q.buffers ≡ p.buffers
    → q.next ≡ p.next
    → IsConserved (mark_allocated q buf)
take-IsConserved p q buf v moved same_memory same_next b = ground (
  arith,
  v b,
  v buf,
  moved b,
  moved buf,
  mark_allocated-idle q buf b,
  ap (λ m. (m buf).is_allocated) same_memory,
  ap (λ m. (m b).is_allocated) same_memory,
)

pub page-IsConserved :
    (p : PacketPool) (n : ℕ) → IsConserved p → IsConserved (allocate_new_page_internal p n)
unfolding allocate_new_page_internal construct count_use
page-IsConserved p n v b =
    ground
      (arith, v b, count-push_batch b p.free_list (addresses p.next n), count-addresses b p.next n)

pop_free-IsConserved :
    (p : PacketPool) (buf : ℕ) (rest : List ℕ)
    → p.free_list ≡ buf ∷ rest
    → IsConserved p
    → IsConserved (mark_allocated (record p { free_list = rest }) buf)
pop_free-IsConserved p buf rest e v =
    take-IsConserved p (record p { free_list = rest }) buf v (λ b. omega (arith, ap (count b) e))
      refl refl

pub pop_retry-IsConserved : (n : ℕ) (p : PacketPool) → IsConserved p → IsConserved (pop_retry n p).1
unfolding pop_retry
pop_retry-IsConserved zero p v = v
pop_retry-IsConserved (suc n) p v = elim (List-cases p.free_list) [
  | inl e ↦ rw (e, pop_retry) (pop_retry-IsConserved n p v)
  | inr (buf, rest, e) ↦ rw (e, pop_retry) (pop_free-IsConserved p buf rest e v)
]

pub double_check-IsConserved : (p : PacketPool) → IsConserved p → IsConserved (double_check p)
unfolding double_check
double_check-IsConserved p v = elim (List-cases p.free_list) [
  | inl e ↦ rw (e, double_check) v
  | inr (buf, rest, e) ↦ rw (e, double_check) (pop_free-IsConserved p buf rest e v)
]

allocate-IsConserved :
    (p : PacketPool) → IsConserved p → IsConserved (allocate_new_page_and_pop p).1
unfolding allocate_new_page_and_pop
allocate-IsConserved p v =
    pop_retry-IsConserved 5 _ (page-IsConserved _ _ (double_check-IsConserved p v))

acquire_cached-IsConserved :
    (p : PacketPool) (thread : ℕ) (cache : List ℕ)
    → thread < length p.caches
    → get_or p.caches thread [] ≡ cache
    → IsConserved p
    → IsConserved (acquire_cached p thread cache).1
unfolding acquire_cached
acquire_cached-IsConserved p thread [] here e v = allocate-IsConserved p v
acquire_cached-IsConserved p thread (buf ∷ rest) here e v =
    take-IsConserved p (record p { caches = set p.caches thread rest }) buf v
      (λ b. omega (arith, count-flatten-set b p.caches thread rest here, ap (count b) e)) refl refl

-- A refill moves buffers from the free list to the empty cache.
pub refill-IsConserved :
    (p : PacketPool) (thread n : ℕ)
    → thread < length p.caches
    → get_or p.caches thread [] ≡ []
    → IsConserved p
    → IsConserved (record p {
      free_list = drop n p.free_list;
      caches = set p.caches thread (take n p.free_list);
    })
refill-IsConserved p thread n here e v b = omega (
  arith,
  v b,
  count-take-drop b n p.free_list,
  count-flatten-set b p.caches thread (take n p.free_list) here,
  ap (count b) e,
)

batch_count_pos : (n x : ℕ) (xs : List ℕ) → 0 < n → 0 < LockingStack.batch_count n (x ∷ xs)
unfolding LockingStack.batch_count
batch_count_pos n x xs h = ground arith

-- What a refill of an empty cache moves, as a number of buffers: none only if none is free.
pub pop_batch-take :
    (container : List ℕ) (n : ℕ)
    → 0 < n
    → (k : ℕ) × ((LockingStack.pop_batch container [] n).1 ≡ take k container)
      × ((LockingStack.pop_batch container [] n).2 ≡ drop k container)
      × (take k container ≡ [] → container ≡ [])
unfolding LockingStack.pop_batch
pop_batch-take [] n h = (0, refl, refl, λ _. refl)
pop_batch-take (x ∷ xs) n h =
    let k = LockingStack.batch_count n (x ∷ xs) in
    let some_free = lt→ltb 0 (length (x ∷ xs)) (omega arith) in
    (
      k,
      rw some_free (append-nil (take k (x ∷ xs))),
      rw some_free,
      λ e. absurd (omega (arith, ap length e, length-take k (x ∷ xs), batch_count_pos n x xs h)),
    )

-- `Acquire` by a thread that has a cache keeps the invariant that each buffer of the pool is
-- once in the free list or in a cache, or else in use.
pub acquire-IsConserved :
    (p : PacketPool) (thread : ℕ)
    → thread < length p.caches
    → IsConserved p
    → IsConserved (acquire p thread).1
unfolding acquire
acquire-IsConserved p thread here v = elim (List-cases (get_or p.caches thread [])) [
  | inr (buf, rest, e) ↦ rw (e, acquire) (acquire_cached-IsConserved p thread (buf ∷ rest) here e v)
  | inl e ↦
      let (k, cache, free, _) = pop_batch-take p.free_list batch_size (omega arith) in
      rw (e, acquire, cache, free)
        (acquire_cached-IsConserved _ thread (take k p.free_list)
          (omega (arith, length-set p.caches thread (take k p.free_list)))
          (get_or-set_self p.caches thread (take k p.free_list) [] here)
          (refill-IsConserved p thread k here e v))
]

pub give_back-idle :
    (p : PacketPool) (thread buf b : ℕ)
    → thread < length p.caches
    → (idle (give_back p thread buf) b ≡ idle p b + (if buf == b then 1 else 0))
      × ((give_back p thread buf).buffers ≡ p.buffers)
      × ((give_back p thread buf).next ≡ p.next)
unfolding give_back
give_back-idle p thread buf b here =
    elim (Bool-cases (ltb (length (get_or p.caches thread [])) local_cache_capacity)) [
      | inl room ↦ rw room (
        omega (arith, count-flatten-set b p.caches thread (buf ∷ get_or p.caches thread []) here),
        refl,
        refl,
      )
      | inr full ↦ rw full (
        omega (
          arith,
          count-push_batch b p.free_list (take batch_size (get_or p.caches thread [])),
          count-take-drop b batch_size (get_or p.caches thread []),
          count-flatten-set b p.caches thread (buf ∷ drop batch_size (get_or p.caches thread []))
              here,
        ),
        refl,
        refl,
      )
    ]

-- `Release` by a thread that has a cache, of any buffer, keeps the invariant that each buffer
-- of the pool is once in the free list or in a cache, or else in use.
pub release-IsConserved :
    (p : PacketPool) (thread buf : ℕ)
    → thread < length p.caches
    → IsConserved p
    → IsConserved (release p thread buf)
unfolding release
release-IsConserved p thread buf here v b = elim (Bool-cases (p.buffers buf).is_allocated) [
  | inr twice ↦ rw twice (v b)
  | inl taken ↦
      let (moved, memory, next) =
        give_back-idle
          (record p {
            buffers = update p.buffers buf (record (p.buffers buf) { is_allocated = false });
            use_count = sub64 p.use_count 1;
          })
          thread buf b here in
      rw (taken, moved, memory, next) (ground (arith, v b, taken))
]
