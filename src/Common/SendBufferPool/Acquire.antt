-- ===== src/Common/SendBufferPool/Acquire.antt =====
-- What `Acquire` of CSendBufferPool hands out.
use mmorpg_server.Base.{
  ℕ, some, arith, ◌≤◌, update-ne, List, ◌≡◌, true, false, List-cases, ◌∷◌, ◌&&◌, count, ◌≢◌, update,
  length, inl, subst, inr, if◌then◌else◌, ap, Bool-cases, sym, ◌==◌, leb, ◌∙◌, leb→le, refl,
}
use mmorpg_server.Common.SendBuffer.{new_send_buffer, reset}
use mmorpg_server.Common.SendBufferPool.{SendBufferPool, allocate, acquire, max_pooled}
use mmorpg_server.Common.SendBufferPool.Invariant.{
  OwnsMemory, IsPooled, IsValid, is_idle, allocate-OwnsMemory, allocate-IsPooled,
  delete_buffer-some, deleted,
}

-- What a caller of `Acquire` may rely on.
pub record IsGranted (s : SendBufferPool) (n b : ℕ) (s' : SendBufferPool) : Type 0 where
  pub valid : IsValid s'
  pub large_enough : n ≤ (s'.objects b).buffer.capacity
  pub empty : (s'.objects b).buffer.write_pos ≡ 0
  pub marked : (s'.exists b ≡ true) × ((s'.objects b).is_allocated ≡ true)
  pub unused : (s.exists b && (s.objects b).is_allocated) ≡ false
  pub others :
      (c : ℕ)
      → s.exists c ≡ true
      → (s.objects c).is_allocated ≡ true
      → (s'.objects c ≡ s.objects c) × (s'.exists c ≡ true)

allocate-IsGranted :
    (s : SendBufferPool) (n : ℕ) → IsValid s → IsGranted s n (allocate s n).0 (allocate s n).1
unfolding allocate new_send_buffer
allocate-IsGranted s n v = record {
  valid = record {
    owns = allocate-OwnsMemory s n v.owns;
    pooled = allocate-IsPooled s n v.owns v.pooled;
  };
  large_enough = ground arith;
  empty = ground arith;
  marked = (ground arith, ground arith);
  unused = ground (arith, v.owns.known s.next);
  others = λ c here used.
      let lt = v.owns.known c here in
      (update-ne s.objects s.next c _ (omega (arith, lt)), ground (arith, here, lt));
}

-- The object at the back of the pool is idle, and stands there once.
top_idle :
    (s : SendBufferPool) (b : ℕ) (rest : List ℕ)
    → IsPooled s
    → s.pool ≡ b ∷ rest
    → (s.exists b ≡ true) × ((s.objects b).is_allocated ≡ false) × (count b rest ≡ 0)
top_idle s b rest pooled e =
    let once : count b (b ∷ rest) ≡ (if is_idle s b then 1 else 0) =
      ap (count b) (sym e) ∙ pooled.counted b in
    (ground (arith, once), ground (arith, once), ground (arith, once))

count_rest :
    (s : SendBufferPool) (b c : ℕ) (rest : List ℕ)
    → IsPooled s
    → s.pool ≡ b ∷ rest
    → b ≢ c
    → count c rest ≡ (if is_idle s c then 1 else 0)
count_rest s b c rest pooled e other =
    let once : count c (b ∷ rest) ≡ (if is_idle s c then 1 else 0) =
      ap (count c) (sym e) ∙ pooled.counted c in
    ground (arith, once, other)

-- The pool gives away the object at its back.
reuse-IsGranted :
    (s : SendBufferPool) (n b : ℕ) (rest : List ℕ)
    → IsValid s
    → s.pool ≡ b ∷ rest
    → n ≤ (s.objects b).buffer.capacity
    → IsGranted s n b (record s {
      pool = rest;
      objects =
          update s.objects b (record { buffer = reset (s.objects b).buffer; is_allocated = true });
    })
unfolding reset
reuse-IsGranted s n b rest v e large =
    let (here, idle, none_left) = top_idle s b rest v.pooled e in
    let short : length (b ∷ rest) ≤ max_pooled =
      subst (λ xs. length xs ≤ max_pooled) e v.pooled.bounded in
    record {
      valid = record {
        owns = record {
          block = λ c there.
              let (k, at, live, lt, mine) = v.owns.block c there in
              (k, ground (arith, at), live, lt, ground (arith, mine));
          unshared = λ c d k there there' at also.
              v.owns.unshared c d k there there' (ground (arith, at)) (ground (arith, also));
          known = v.owns.known;
        };
        pooled = record {
          counted = λ c. elim (Bool-cases (b == c)) [
            | inl same ↦ ground (arith, same, none_left)
            | inr other ↦ ground (arith, other, count_rest s b c rest v.pooled e)
          ];
          kept = λ c idle'. ground (arith, v.pooled.kept c, idle');
          bounded = omega (arith, short);
        };
      };
      large_enough = ground (arith, large);
      empty = ground arith;
      marked = (here, ground arith);
      unused = ground (arith, idle);
      others = λ c there used.
          (update-ne s.objects b c _ (λ same. ground (arith, same, idle, used)), there);
    }

-- The object at the back of the pool is too small and is deleted.
shrink-IsValid :
    (s : SendBufferPool) (b k : ℕ) (rest : List ℕ)
    → IsValid s
    → s.pool ≡ b ∷ rest
    → OwnsMemory (deleted (record s { pool = rest }) b k)
    → IsValid (deleted (record s { pool = rest }) b k)
shrink-IsValid s b k rest v e owns =
    let (here, idle, none_left) = top_idle s b rest v.pooled e in
    let short : length (b ∷ rest) ≤ max_pooled =
      subst (λ xs. length xs ≤ max_pooled) e v.pooled.bounded in
    record {
      owns = owns;
      pooled = record {
        counted = λ c. elim (Bool-cases (b == c)) [
          | inl same ↦ ground (arith, same, none_left)
          | inr other ↦ ground (arith, other, count_rest s b c rest v.pooled e)
        ];
        kept = λ c idle'. v.pooled.kept c (ground (arith, idle'));
        bounded = omega (arith, short);
      };
    }

-- What was granted after a deletion was granted.
weaken-IsGranted :
    (s : SendBufferPool) (n b k c : ℕ) (rest : List ℕ) (s' : SendBufferPool)
    → (s.objects b).is_allocated ≡ false
    → IsGranted (deleted (record s { pool = rest }) b k) n c s'
    → c ≢ b
    → IsGranted s n c s'
weaken-IsGranted s n b k c rest s' idle g other = record {
  valid = g.valid;
  large_enough = g.large_enough;
  empty = g.empty;
  marked = g.marked;
  unused = ground (arith, g.unused, other);
  others = λ d here used. g.others d (ground (arith, here, idle, used)) used;
}

allocate_new : (s : SendBufferPool) (n : ℕ) → (allocate s n).0 ≡ s.next
unfolding allocate
allocate_new s n = refl

-- `Acquire` on a valid pool returns a buffer that was not in use, has at least the capacity
-- that was asked for, is empty and marked as in use; the pool stays valid, the buffers in use
-- stay as they are, and no deleted buffer is touched.
pub acquire_lem :
    (s : SendBufferPool) (n : ℕ)
    → IsValid s
    → (b : ℕ) × (s' : SendBufferPool) × (acquire s n ≡ some (b, s')) × IsGranted s n b s'
unfolding acquire
acquire_lem s n v = elim (List-cases s.pool) [
  | inl empty ↦ ((allocate s n).0, (allocate s n).1, rw empty refl, allocate-IsGranted s n v)
  | inr (b, rest, e) ↦
      let (here, idle, none_left) = top_idle s b rest v.pooled e in
      elim (Bool-cases (leb n (s.objects b).buffer.capacity)) [
        | inl large ↦
            (b, _, rw (e, here, large) refl, reuse-IsGranted s n b rest v e (leb→le _ _ large))
        | inr small ↦
            let taken : OwnsMemory (record s { pool = rest }) = record {
              block = v.owns.block;
              unshared = v.owns.unshared;
              known = v.owns.known;
            } in
            let (k, done, owns) = delete_buffer-some (record s { pool = rest }) b taken here in
            let s1 = deleted (record s { pool = rest }) b k in
            let g = allocate-IsGranted s1 n (shrink-IsValid s b k rest v e owns) in
            (
              (allocate s1 n).0,
              (allocate s1 n).1,
              rw (e, here, small, done) refl,
              weaken-IsGranted s n b k (allocate s1 n).0 rest (allocate s1 n).1 idle g
                  (omega (arith, allocate_new s1 n, v.owns.known b here)),
            )
      ]
]
