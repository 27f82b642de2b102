-- ===== src/Common/PacketPool/Ledger.antt =====
-- Who has the buffers of CPacketBufferPool: the free list, a cache, or a caller that was given one
-- by `Acquire` and has not given it to `Release`.
use mmorpg_server.Base.{
  [], refl, ℕ, none, some, arith, inl, inr, Option, List, ◌<◌, ◌≡◌, ◌∷◌, false, suc, count, length,
  ◌+◌, List-cases, ◌≤◌, if◌then◌else◌, ◌==◌, sym, set, get_or, ◌∙◌, ap, ◌&&◌, drop, ltb, take,
  get_or-set_self, length-set, drop-nil, Bool-cases, update, sub64,
}
use mmorpg_server.Common.PacketPool.Exclusive.{
  count_head, push_batch-ne-nil, page_free_list, addresses-ne-nil, count-get_or-le,
}
use mmorpg_server.Common.Types.{buffer_pool_expand_size}
use mmorpg_server.Common.PacketPool.{
  PacketPool, count_use, construct, addresses, allocate_new_page_internal, pop_retry, double_check,
  allocate_new_page_and_pop, acquire_cached, acquire, release, batch_size,
}
use mmorpg_server.Common.PacketPool.Conservation.{
  IsConserved, idle, in_use, exists, mark_allocated-idle, page-IsConserved, pop_batch-take,
  refill-IsConserved, acquire-IsConserved, release-IsConserved, give_back-idle,
}

-- The buffers that callers hold
abbrev pub take_over : Option ℕ → List ℕ → List ℕ
take_over none held = held
take_over (some buf) held = buf ∷ held

abbrev pub hand_back : ℕ → List ℕ → List ℕ
hand_back buf [] = []
hand_back buf (b ∷ held) = if buf == b then held else b ∷ hand_back buf held

-- Each buffer of the pool is once in the free list, in a cache, or held by a caller; and exactly
-- those held are marked.
abbrev pub IsAccounted : List ℕ × PacketPool → Type 0
IsAccounted s = (b : ℕ) → (idle s.1 b + count b s.0 ≡ exists s.1 b) × (in_use s.1 b ≡ count b s.0)

accounted-IsConserved : (s : List ℕ × PacketPool) → IsAccounted s → IsConserved s.1
accounted-IsConserved s v b = omega (arith, v b)

-- What `Acquire` returns is all that it marks.
abbrev pub Marks : PacketPool → Option ℕ × PacketPool → Type 0
Marks p r =
    (buf : ℕ) × (r.0 ≡ some buf)
    × ((b : ℕ) → in_use r.1 b ≡ in_use p b + (if buf == b then 1 else 0))

idle_head :
    (p : PacketPool) (buf : ℕ)
    → IsConserved p
    → 0 < idle p buf
    → (p.buffers buf).is_allocated ≡ false
idle_head p buf v h = ground (arith, v buf)

-- A new page marks nothing.
page-in_use :
    (p : PacketPool) (n b : ℕ)
    → IsConserved p
    → in_use (allocate_new_page_internal p n) b ≡ in_use p b
unfolding allocate_new_page_internal construct count_use
page-in_use p n b v = ground (arith, v b)

expand-Marks :
    (p : PacketPool) (n rounds : ℕ)
    → 0 < n
    → p.free_list ≡ []
    → IsConserved p
    → Marks p (pop_retry (suc rounds) (allocate_new_page_internal p n))
unfolding pop_retry
expand-Marks p n rounds some_page nothing v =
    let q = allocate_new_page_internal p n in
    let v' = page-IsConserved p n v in
    elim (List-cases q.free_list) [
      | inl e ↦ absurd (
          push_batch-ne-nil p.free_list (addresses p.next n) (addresses-ne-nil p.next n some_page)
            (sym (page_free_list p n) ∙ e))
      | inr (buf, rest, e) ↦
          let off = idle_head q buf v' (omega (arith, count_head buf rest, ap (count buf) e)) in
          rw (e, pop_retry)
            (
              buf,
              refl,
              λ b. omega (
                arith,
                (mark_allocated-idle (record q { free_list = rest }) buf b off).1,
                page-in_use p n b v,
              ),
            )
    ]

acquire_cached-Marks :
    (p : PacketPool) (thread : ℕ) (cache : List ℕ)
    → (cache ≡ [] → p.free_list ≡ [])
    → ((b : ℕ) → count b cache ≤ idle p b)
    → IsConserved p
    → Marks p (acquire_cached p thread cache)
unfolding acquire_cached allocate_new_page_and_pop double_check
acquire_cached-Marks p thread [] all waiting v =
    let unchanged : double_check p ≡ p = simp (all refl, double_check) in
    rw unchanged (expand-Marks p buffer_pool_expand_size 4 (omega arith) (all refl) v)
acquire_cached-Marks p thread (buf ∷ rest) all waiting v =
    let off = idle_head p buf v (omega (arith, waiting buf, count_head buf rest)) in
    (
      buf,
      refl,
      λ b. (mark_allocated-idle (record p { caches = set p.caches thread rest }) buf b off).1,
    )

acquire-Marks :
    (p : PacketPool) (thread : ℕ)
    → thread < length p.caches
    → IsConserved p
    → Marks p (acquire p thread)
unfolding acquire
acquire-Marks p thread here v = elim (List-cases (get_or p.caches thread [])) [
  | inr (buf, rest, e) ↦
      rw (e, acquire)
        (acquire_cached-Marks p thread (buf ∷ rest) (λ none_left. cc)
          (λ b. omega (arith, count-get_or-le b p.caches thread here, ap (count b) e)) v)
  | inl e ↦
      let (k, cache, free, all) = pop_batch-take p.free_list batch_size (omega arith) in
      let q : PacketPool = record p {
        free_list = drop k p.free_list;
        caches = set p.caches thread (take k p.free_list);
      } in
      let same = get_or-set_self p.caches thread (take k p.free_list) [] here in
      let there : thread < length q.caches =
        omega (arith, here, length-set p.caches thread (take k p.free_list)) in
      rw (e, acquire, cache, free)
        (acquire_cached-Marks q thread (take k p.free_list)
          (λ none_left. ap (drop k) (all none_left) ∙ drop-nil k)
          (λ b. omega (arith, count-get_or-le b q.caches thread there, ap (count b) same))
          (refill-IsConserved p thread k here e v))
]

pub acquire-IsAccounted :
    (held : List ℕ) (p : PacketPool) (thread : ℕ)
    → thread < length p.caches
    → IsAccounted (held, p)
    → IsAccounted (take_over (acquire p thread).0 held, (acquire p thread).1)
acquire-IsAccounted held p thread here v =
    let conserved = accounted-IsConserved (held, p) v in
    let kept = acquire-IsConserved p thread here conserved in
    let (buf, returned, marks) = acquire-Marks p thread here conserved in
    rw returned (λ b. ground (arith, v b, kept b, marks b))

count-hand_back :
    (buf b : ℕ) (held : List ℕ)
    → count b (hand_back buf held) + (if (buf == b) && ltb 0 (count b held) then 1 else 0)
      ≡ count b held
count-hand_back buf b [] = ground arith
count-hand_back buf b (h ∷ held) = ground (arith, count-hand_back buf b held)

release-in_use :
    (p : PacketPool) (thread buf b : ℕ)
    → thread < length p.caches
    → in_use (release p thread buf) b ≡ (if buf == b then 0 else in_use p b)
unfolding release
release-in_use p thread buf b here = elim (Bool-cases (p.buffers buf).is_allocated) [
  | inr twice ↦ rw twice (ground (arith, twice))
  | inl taken ↦
      let q = record p {
        buffers = update p.buffers buf (record (p.buffers buf) { is_allocated = false });
        use_count = sub64 p.use_count 1;
      } in
      let (_, memory, _) = give_back-idle q thread buf b here in rw (taken, memory) (ground arith)
]

pub release-IsAccounted :
    (held : List ℕ) (p : PacketPool) (thread buf : ℕ)
    → thread < length p.caches
    → IsAccounted (held, p)
    → IsAccounted (hand_back buf held, release p thread buf)
release-IsAccounted held p thread buf here v b =
    let kept = release-IsConserved p thread buf here (accounted-IsConserved (held, p) v) in
    ground
      (arith, v b, v buf, kept b, count-hand_back buf b held, release-in_use p thread buf b here)
