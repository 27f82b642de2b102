-- ===== src/Common/PacketPool/Usage.antt =====
-- The counter `UseCount` of CPacketBufferPool against the buffers that were handed out.
use mmorpg_server.Base.{
  ℕ, suc, arith, length, ◌≡◌, ◌<◌, List, List-cases, ◌≤◌, add64, inl, [], get_or, sym, ◌∷◌, inr,
  ◌+◌, ◌-◌, ◌∙◌, set, take, ap, drop, refl, drop-nil, true, some, sub64,
}
use mmorpg_server.Common.Types.{buffer_pool_expand_size}
use mmorpg_server.Common.PacketPool.{
  PacketPool, mark_allocated, count_use, allocate_new_page_internal, pop_retry, double_check,
  allocate_new_page_and_pop, give_back, release, addresses, acquire_cached, acquire, batch_size,
}
use mmorpg_server.Common.PacketPool.Conservation.{pop_batch-take, IsConserved}
use mmorpg_server.Common.PacketPool.Exclusive.{
  acquire-Grants, page_free_list, push_batch-ne-nil, addresses-ne-nil,
}

-- From `p` to `q` the counter has grown by one, and by one more for each new page.
abbrev pub Counts : PacketPool → PacketPool → Type 0
Counts p q =
    (length p.pages ≤ length q.pages)
    × (q.use_count ≡ add64 p.use_count (1 + (length q.pages - length p.pages)))

mark_allocated-Counts :
    (p : PacketPool) (buf : ℕ)
    → ((mark_allocated p buf).use_count ≡ add64 p.use_count 1)
      × ((mark_allocated p buf).pages ≡ p.pages)
unfolding mark_allocated count_use
mark_allocated-Counts p buf = ground arith

page-Counts :
    (p : PacketPool) (n : ℕ)
    → ((allocate_new_page_internal p n).use_count ≡ add64 p.use_count 1)
      × ((allocate_new_page_internal p n).pages ≡ n ∷ p.pages)
unfolding allocate_new_page_internal count_use
page-Counts p n = ground arith

expand-Counts :
    (p : PacketPool) (n rounds : ℕ)
    → 0 < n
    → Counts p (pop_retry (suc rounds) (allocate_new_page_internal p n)).1
unfolding pop_retry
expand-Counts p n rounds some_page =
    let q = allocate_new_page_internal p n in
    elim (List-cases q.free_list) [
      | inl e ↦ absurd (
          push_batch-ne-nil p.free_list (addresses p.next n) (addresses-ne-nil p.next n some_page)
            (sym (page_free_list p n) ∙ e))
      | inr (buf, rest, e) ↦
          let (taken, pages) = mark_allocated-Counts (record q { free_list = rest }) buf in
          let (grown, page) = page-Counts p n in
          rw (e, pop_retry)
            (
              omega (arith, ap length pages, ap length page),
              omega (arith, ap length pages, ap length page, taken, grown),
            )
    ]

allocate-Counts : (p : PacketPool) → p.free_list ≡ [] → Counts p (allocate_new_page_and_pop p).1
unfolding allocate_new_page_and_pop double_check
allocate-Counts p nothing =
    let unchanged : double_check p ≡ p = simp (nothing, double_check) in
    rw unchanged (expand-Counts p buffer_pool_expand_size 4 (omega arith))

acquire_cached-Counts :
    (p q : PacketPool) (thread : ℕ) (cache : List ℕ)
    → (cache ≡ [] → q.free_list ≡ [])
    → q.use_count ≡ p.use_count
    → q.pages ≡ p.pages
    → Counts p (acquire_cached q thread cache).1
unfolding acquire_cached
acquire_cached-Counts p q thread [] nothing same_count same_pages =
    let (more, counted) = allocate-Counts q (nothing refl) in
    rw (← same_count, ← same_pages) (more, counted)
acquire_cached-Counts p q thread (buf ∷ rest) nothing same_count same_pages =
    let (taken, pages) =
      mark_allocated-Counts (record q { caches = set q.caches thread rest }) buf in
    (
      omega (arith, ap length pages, ap length same_pages),
      omega (arith, ap length pages, ap length same_pages, taken, same_count),
    )

-- `Acquire` adds one to `UseCount`, and one more for each page that it makes.
pub acquire-Counts : (p : PacketPool) (thread : ℕ) → Counts p (acquire p thread).1
unfolding acquire
acquire-Counts p thread = elim (List-cases (get_or p.caches thread [])) [
  | inr (buf, rest, e) ↦
      rw (e, acquire) (acquire_cached-Counts p p thread (buf ∷ rest) (λ none_left. cc) refl refl)
  | inl e ↦
      let (k, cache, free, all) = pop_batch-take p.free_list batch_size (omega arith) in
      rw (e, acquire, cache, free)
        (acquire_cached-Counts p _ thread (take k p.free_list)
          (λ none_left. ap (drop k) (all none_left) ∙ drop-nil k) refl refl)
]

release_use_count :
    (p : PacketPool) (thread buf : ℕ)
    → (p.buffers buf).is_allocated ≡ true
    → ((release p thread buf).use_count ≡ sub64 p.use_count 1)
      × ((release p thread buf).pages ≡ p.pages)
unfolding release give_back
release_use_count p thread buf taken = ground arith

-- On a pool that holds each of its buffers once, a thread that has a cache gets a buffer from
-- `Acquire`, and after the `Release` of that buffer, by any thread, `UseCount` is what it was
-- and one more for each page that was made (modulo 2 ^ 64).
pub release-acquire-use_count :
    (p : PacketPool) (thread other : ℕ)
    → thread < length p.caches
    → IsConserved p
    → (buf : ℕ) × ((acquire p thread).0 ≡ some buf)
      × ((release (acquire p thread).1 other buf).use_count
          ≡ add64 p.use_count
              (length (release (acquire p thread).1 other buf).pages - length p.pages))
release-acquire-use_count p thread other here v =
    let g = acquire-Grants p thread here v in
    let (more, counted) = acquire-Counts p thread in
    let (less, pages) = release_use_count (acquire p thread).1 other g.buf g.marked in
    (g.buf, g.returned, omega (arith, more, counted, less, ap length pages))
