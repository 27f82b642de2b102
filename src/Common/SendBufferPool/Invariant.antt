-- ===== src/Common/SendBufferPool/Invariant.antt =====
-- The memory and the idle objects of CSendBufferPool of Source/Core/Common/Buffer.cpp.
use mmorpg_server.Base.{
  ℕ, some, arith, ◌≡◌, Bool, count, Bool-cases, update, true, ◌&&◌, ◌==◌, false, if◌then◌else◌, ◌<◌,
  not, ◌≤◌, inl, inr, ◌*◌, refl, length,
}
use mmorpg_server.Common.Types.{send_buffer_size}
use mmorpg_server.Common.SendBuffer.{new_send_buffer, destroy, free}
use mmorpg_server.Common.SendBufferPool.{SendBufferPool, allocate, delete_buffer, max_pooled}

-- An object that has not been deleted owns a block of memory, alone.
pub record OwnsMemory (s : SendBufferPool) : Type 0 where
  pub block :
      (b : ℕ)
      → s.exists b ≡ true
      → (k : ℕ) × ((s.objects b).buffer.data_ ≡ some k)
        × (s.memory.live k ≡ true)
        × (k < s.memory.next)
        × ((s.objects b).buffer.owns_memory ≡ true)
  pub unshared :
      (b c k : ℕ)
      → s.exists b ≡ true
      → s.exists c ≡ true
      → (s.objects b).buffer.data_ ≡ some k
      → (s.objects c).buffer.data_ ≡ some k
      → b ≡ c
  pub known : (b : ℕ) → s.exists b ≡ true → b < s.next

abbrev pub is_idle : SendBufferPool → ℕ → Bool
is_idle s b = s.exists b && not (s.objects b).is_allocated

-- The pool holds each idle object once and no other, and no object that is too large to be kept.
pub record IsPooled (s : SendBufferPool) : Type 0 where
  pub counted : (b : ℕ) → count b s.pool ≡ (if is_idle s b then 1 else 0)
  pub kept : (b : ℕ) → is_idle s b ≡ true → (s.objects b).buffer.capacity ≤ send_buffer_size * 2
  pub bounded : length s.pool ≤ max_pooled

pub record IsValid (s : SendBufferPool) : Type 0 where
  pub owns : OwnsMemory s
  pub pooled : IsPooled s

pub allocate-OwnsMemory : (s : SendBufferPool) (n : ℕ) → OwnsMemory s → OwnsMemory (allocate s n).1
unfolding allocate new_send_buffer
allocate-OwnsMemory s n owns = record {
  block = λ b here. elim (Bool-cases (s.next == b)) [
    | inl new ↦
        (s.memory.next, ground (arith, new), ground (arith, new), omega arith, ground (arith, new))
    | inr old ↦
        let (k, at, live, lt, mine) = owns.block b (ground (arith, old, here)) in
        (
          k,
          ground (arith, old, at),
          ground (arith, live, lt),
          omega (arith, lt),
          ground (arith, old, mine),
        )
  ];
  unshared = λ b c k here there at also.
      ground (arith, owns.unshared b c k, owns.block b, owns.block c, here, there, at, also);
  known = λ b here. ground (arith, owns.known b, here);
}

-- Where it stands in the pool and what was there before are no matter to a new object.
pub allocate-IsPooled :
    (s : SendBufferPool) (n : ℕ) → OwnsMemory s → IsPooled s → IsPooled (allocate s n).1
unfolding allocate new_send_buffer
allocate-IsPooled s n owns pooled = record {
  counted = λ b. ground (arith, pooled.counted b, owns.known b);
  kept = λ b idle. ground (arith, pooled.kept b, idle);
  bounded = pooled.bounded;
}

-- The object that `delete` leaves behind, and its block
abbrev pub deleted : SendBufferPool → ℕ → ℕ → SendBufferPool
deleted s b k = record s {
  exists = update s.exists b false;
  memory = record s.memory { live = update s.memory.live k false };
}

pub delete_buffer-some :
    (s : SendBufferPool) (b : ℕ)
    → OwnsMemory s
    → s.exists b ≡ true
    → (k : ℕ) × (delete_buffer s b ≡ some (deleted s b k)) × OwnsMemory (deleted s b k)
unfolding delete_buffer destroy free
delete_buffer-some s b owns here =
    let (k, at, live, lt, mine) = owns.block b here in
    (
      k,
      rw (here, at, mine, live) refl,
      record {
        block = λ c there.
            let stays : s.exists c ≡ true = ground (arith, there) in
            let (l, at', live', lt', mine') = owns.block c stays in
            (
              l,
              at',
              ground (arith, there, live', owns.unshared b c k here stays at, at'),
              lt',
              mine',
            );
        unshared = λ c d l there there' at' also.
            owns.unshared c d l (ground (arith, there)) (ground (arith, there')) at' also;
        known = λ c there. owns.known c (ground (arith, there));
      },
    )
