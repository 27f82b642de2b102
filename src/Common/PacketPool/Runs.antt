-- ===== src/Common/PacketPool/Runs.antt =====
-- Any sequence of calls of CPacketBufferPool, each by a thread that has a cache.
use mmorpg_server.Base.{
  [], refl, ℕ, arith, List, ◌≡◌, length, ◌<◌, ◌∷◌, Bool, suc, List-cases, ◌∙◌, ap, true, ltb, inl,
  set, get_or, inr, length-set, ◌&&◌, zero, drop,
}
use mmorpg_server.Common.Types.{buffer_pool_expand_size}
use mmorpg_server.Common.LockingStack
use mmorpg_server.Common.PacketPool.{
  PacketPool, batch_size, update_max_usage, count_use, mark_allocated, allocate_new_page_internal,
  pop_retry, double_check, allocate_new_page_and_pop, acquire_cached, acquire, give_back, release,
}
use mmorpg_server.Common.PacketPool.Ledger.{
  take_over, hand_back, IsAccounted, acquire-IsAccounted, release-IsAccounted,
}

pub data Call : Type 0 where
  acquires : ℕ → Call
  releases : ℕ → ℕ → Call

abbrev pub caller : Call → ℕ
caller (acquires thread) = thread
caller (releases thread buf) = thread

-- What an `Acquire` returns is held from then on, and what is given to `Release` no more.
unfoldable pub answer : Call → List ℕ × PacketPool → List ℕ × PacketPool
answer (acquires thread) s = let (out, p) = acquire s.1 thread in (take_over out s.0, p)
answer (releases thread buf) s = (hand_back buf s.0, release s.1 thread buf)

unfoldable pub run_calls : List Call → List ℕ × PacketPool → List ℕ × PacketPool
run_calls [] s = s
run_calls (c ∷ calls) s = run_calls calls (answer c s)

-- Each caller is one of the first `n` threads.
abbrev pub all_below : ℕ → List Call → Bool
all_below n [] = true
all_below n (c ∷ calls) = ltb (caller c) n && all_below n calls

mark-caches : (p : PacketPool) (buf : ℕ) → (mark_allocated p buf).caches ≡ p.caches
unfolding mark_allocated count_use update_max_usage
mark-caches p buf = ground arith

page-caches : (p : PacketPool) (n : ℕ) → (allocate_new_page_internal p n).caches ≡ p.caches
unfolding allocate_new_page_internal count_use update_max_usage
page-caches p n = ground arith

retry-caches : (rounds : ℕ) (p : PacketPool) → (pop_retry rounds p).1.caches ≡ p.caches
unfolding pop_retry
retry-caches zero p = refl
retry-caches (suc rounds) p = elim (List-cases p.free_list) [
  | inl empty ↦ rw (pop_retry, empty) (retry-caches rounds p)
  | inr (buf, rest, e) ↦ rw (pop_retry, e) (mark-caches (record p { free_list = rest }) buf)
]

double-caches : (p : PacketPool) → (double_check p).caches ≡ p.caches
unfolding double_check
double-caches p = elim (List-cases p.free_list) [
  | inl empty ↦ rw (double_check, empty) refl
  | inr (buf, rest, e) ↦ rw (double_check, e) (mark-caches (record p { free_list = rest }) buf)
]

grow-caches : (p : PacketPool) → (allocate_new_page_and_pop p).1.caches ≡ p.caches
unfolding allocate_new_page_and_pop
grow-caches p =
    retry-caches 5 (allocate_new_page_internal (double_check p) buffer_pool_expand_size)
    ∙ page-caches (double_check p) buffer_pool_expand_size
    ∙ double-caches p

cached-length :
    (p : PacketPool) (thread : ℕ) (cache : List ℕ)
    → length (acquire_cached p thread cache).1.caches ≡ length p.caches
unfolding acquire_cached
cached-length p thread [] = ap length (grow-caches p)
cached-length p thread (buf ∷ rest) =
    ap length (mark-caches (record p { caches = set p.caches thread rest }) buf)
    ∙ length-set p.caches thread rest

acquire-length :
    (p : PacketPool) (thread : ℕ) → length (acquire p thread).1.caches ≡ length p.caches
unfolding acquire
acquire-length p thread = elim (List-cases (get_or p.caches thread [])) [
  | inr (buf, rest, e) ↦ rw (e, acquire) (cached-length p thread (buf ∷ rest))
  | inl e ↦
      let (_, cache, free) = LockingStack.pop_batch p.free_list [] batch_size in
      rw (e, acquire)
        (cached-length (record p { free_list = free; caches = set p.caches thread cache }) thread
            cache
          ∙ length-set p.caches thread cache)
]

release-length :
    (p : PacketPool) (thread buf : ℕ) → length (release p thread buf).caches ≡ length p.caches
unfolding release give_back
release-length p thread buf = ground (
  arith,
  length-set p.caches thread (buf ∷ get_or p.caches thread []),
  length-set p.caches thread (buf ∷ drop batch_size (get_or p.caches thread [])),
)

-- A call makes and drops no cache.
answer-length :
    (c : Call) (s : List ℕ × PacketPool) → length (answer c s).1.caches ≡ length s.1.caches
unfolding answer
answer-length (acquires thread) s = acquire-length s.1 thread
answer-length (releases thread buf) s = release-length s.1 thread buf

answer-IsAccounted :
    (c : Call) (s : List ℕ × PacketPool)
    → caller c < length s.1.caches
    → IsAccounted s
    → IsAccounted (answer c s)
unfolding answer
answer-IsAccounted (acquires thread) s here v = acquire-IsAccounted s.0 s.1 thread here v
answer-IsAccounted (releases thread buf) s here v = release-IsAccounted s.0 s.1 thread buf here v

-- For any sequence of calls of `Acquire` and `Release`, one after the other, each by a thread that
-- has a cache: if each buffer of the pool is once in the free list, or once in a cache, or once
-- among those that callers hold, and exactly those held are marked as in use, it is so afterwards,
-- where what an `Acquire` has returned is held until it is given to `Release`. So no buffer is
-- lost, pooled twice or held twice.
pub run_calls-IsAccounted :
    (calls : List Call) (s : List ℕ × PacketPool)
    → all_below (length s.1.caches) calls ≡ true
    → IsAccounted s
    → IsAccounted (run_calls calls s)
unfolding run_calls
run_calls-IsAccounted [] s below v = v
run_calls-IsAccounted (c ∷ calls) s below v =
    let here : caller c < length s.1.caches = ground (arith, below) in
    let later : all_below (length s.1.caches) calls ≡ true = ground (arith, below) in
    run_calls-IsAccounted calls (answer c s)
      (ap (λ n. all_below n calls) (answer-length c s) ∙ later) (answer-IsAccounted c s here v)
