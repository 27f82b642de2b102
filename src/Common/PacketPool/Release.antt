-- ===== src/Common/PacketPool/Release.antt =====
-- `Release` of CPacketBufferPool twice, and the buffer that `AllocateNewPageAndPop` loses.
use mmorpg_server.Base.{
  ℕ, zero, suc, arith, ◌≡◌, List, Bool-cases, ◌∷◌, inr, false, inl, ◌≢◌, some, true, List-cases, ap,
  count, ◌<◌, ◌∙◌,
}
use mmorpg_server.Common.Types.{buffer_pool_expand_size}
use mmorpg_server.Common.PacketPool.{
  PacketPool, mark_allocated, count_use, allocate_new_page_internal, pop_retry, double_check,
  allocate_new_page_and_pop, give_back, release,
}
use mmorpg_server.Common.PacketPool.Conservation.{
  IsConserved, page-IsConserved, double_check-IsConserved,
}
use mmorpg_server.Common.PacketPool.Exclusive.{page_keeps, count_head}

give_back_memory : (p : PacketPool) (thread buf : ℕ) → (give_back p thread buf).buffers ≡ p.buffers
unfolding give_back
give_back_memory p thread buf = ground arith

-- A second `Release` of a buffer, by any thread, changes nothing.
pub release-release :
    (p : PacketPool) (thread other buf : ℕ)
    → release (release p thread buf) other buf ≡ release p thread buf
unfolding release
release-release p thread other buf = elim (Bool-cases (p.buffers buf).is_allocated) [
  | inr free ↦ rw (free, free)
  | inl taken ↦ rw taken (rw give_back_memory (ground arith))
]

mark_allocated_other :
    (q : PacketPool) (rest : List ℕ) (x buf : ℕ)
    → x ≢ buf
    → (q.buffers buf).is_allocated ≡ true
    → ((mark_allocated (record q { free_list = rest }) x).buffers buf).is_allocated ≡ true
unfolding mark_allocated count_use
mark_allocated_other q rest x buf other taken = ground arith

-- A buffer in use is neither found by the retries nor released by them.
pop_retry_in_use :
    (rounds : ℕ) (q : PacketPool) (buf : ℕ)
    → IsConserved q
    → (q.buffers buf).is_allocated ≡ true
    → ((pop_retry rounds q).0 ≢ some buf)
      × (((pop_retry rounds q).1.buffers buf).is_allocated ≡ true)
unfolding pop_retry
pop_retry_in_use zero q buf v taken = (λ e. cc, taken)
pop_retry_in_use (suc rounds) q buf v taken = elim (List-cases q.free_list) [
  | inl e ↦ rw (e, pop_retry) (pop_retry_in_use rounds q buf v taken)
  | inr (x, rest, e) ↦
      let other : x ≢ buf = λ same. ground (arith, v buf, ap (count buf) e, same, taken) in
      rw (e, pop_retry)
        (λ found. other (ground arith), mark_allocated_other q rest x buf other taken)
]

double_check_marks :
    (p : PacketPool) (buf : ℕ) (rest : List ℕ)
    → p.free_list ≡ buf ∷ rest
    → (((double_check p).buffers buf).is_allocated ≡ true) × ((double_check p).next ≡ p.next)
unfolding double_check mark_allocated count_use
double_check_marks p buf rest e = simp (e, double_check) (ground arith)

-- When the free list is not empty as `AllocateNewPageAndPop` starts, on a pool that holds each
-- of its buffers once, the buffer at its top was idle, is marked as in use afterwards, and is
-- not the one returned: it is lost.
pub double_check_loses :
    (p : PacketPool) (buf : ℕ) (rest : List ℕ)
    → p.free_list ≡ buf ∷ rest
    → IsConserved p
    → ((p.buffers buf).is_allocated ≡ false)
      × ((allocate_new_page_and_pop p).0 ≢ some buf)
      × (((allocate_new_page_and_pop p).1.buffers buf).is_allocated ≡ true)
unfolding allocate_new_page_and_pop
double_check_loses p buf rest e v =
    let q = allocate_new_page_internal (double_check p) buffer_pool_expand_size in
    let (unfound, kept) =
      pop_retry_in_use 5 q buf (page-IsConserved _ _ (double_check-IsConserved p v)) still_marked in
    (ground (arith, v buf, ap (count buf) e, count_head buf rest), unfound, kept)
  where
    exists_before : buf < p.next
    exists_before = ground (arith, v buf, ap (count buf) e, count_head buf rest)

    still_marked :
        ((allocate_new_page_internal (double_check p) buffer_pool_expand_size).buffers
          buf).is_allocated
        ≡ true
    still_marked =
        let (marked, next) = double_check_marks p buf rest e in
        ap (λ b. b.is_allocated)
          (page_keeps (double_check p) buffer_pool_expand_size buf (omega (arith, exists_before)))
        ∙ marked
