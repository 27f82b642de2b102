-- ===== src/Common/SendBufferPool/Release.antt =====
-- What `Release` of CSendBufferPool keeps and deletes, and what a second call does.
use mmorpg_server.Base.{
  refl, ℕ, none, some, arith, update, ◌≡◌, ◌&&◌, ◌∷◌, false, true, ◌≤◌, ◌≢◌, ◌*◌, length, ◌<◌,
  update-ne, Bool-cases, if◌then◌else◌, sym, ltb, inl, subst, inr, ltb→lt,
}
use mmorpg_server.Common.Types.{send_buffer_size}
use mmorpg_server.Common.SendBuffer.{reset}
use mmorpg_server.Common.SendBufferPool.{
  SendBufferPool, delete_buffer, unmarked, give_back, release, max_pooled,
}
use mmorpg_server.Common.SendBufferPool.Invariant.{OwnsMemory, IsValid, delete_buffer-some, deleted}

unmarked-OwnsMemory : (s : SendBufferPool) (b : ℕ) → OwnsMemory s → OwnsMemory (unmarked s b)
unmarked-OwnsMemory s b owns = record {
  block = λ c there.
      let (k, at, live, lt, mine) = owns.block c there in
      (k, ground (arith, at), live, lt, ground (arith, mine));
  unshared = λ c d k there there' at also.
      owns.unshared c d k there there' (ground (arith, at)) (ground (arith, also));
  known = owns.known;
}

abbrev kept : SendBufferPool → ℕ → SendBufferPool
kept s b = record s {
  pool = b ∷ s.pool;
  objects =
      update s.objects b (record { buffer = reset (s.objects b).buffer; is_allocated = false });
}

kept-IsValid :
    (s : SendBufferPool) (b : ℕ)
    → IsValid s
    → s.exists b ≡ true
    → (s.objects b).is_allocated ≡ true
    → (s.objects b).buffer.capacity ≤ send_buffer_size * 2
    → length s.pool < max_pooled
    → IsValid (kept s b)
unfolding reset
kept-IsValid s b v here used small room = record {
  owns = record {
    block = λ c there.
        let (k, at, live, lt, mine) = v.owns.block c there in
        (k, ground (arith, at), live, lt, ground (arith, mine));
    unshared = λ c d k there there' at also.
        v.owns.unshared c d k there there' (ground (arith, at)) (ground (arith, also));
    known = v.owns.known;
  };
  pooled = record {
    counted = λ c. ground (arith, v.pooled.counted c, here, used);
    kept = λ c idle. ground (arith, v.pooled.kept c, idle, small);
    bounded = omega arith;
  };
}

deleted-IsValid :
    (s : SendBufferPool) (b k : ℕ)
    → IsValid s
    → s.exists b ≡ true
    → (s.objects b).is_allocated ≡ true
    → OwnsMemory (deleted (unmarked s b) b k)
    → IsValid (deleted (unmarked s b) b k)
deleted-IsValid s b k v here used owns = record {
  owns = owns;
  pooled = record {
    counted = λ c. ground (arith, v.pooled.counted c, here, used);
    kept = λ c idle. ground (arith, v.pooled.kept c, idle);
    bounded = v.pooled.bounded;
  };
}

-- What a caller of `Release` may rely on.
pub record IsReleased (s : SendBufferPool) (b : ℕ) (s' : SendBufferPool) : Type 0 where
  pub valid : IsValid s'
  pub given_up : (s'.exists b && (s'.objects b).is_allocated) ≡ false
  pub others : (c : ℕ) → c ≢ b → (s'.objects c ≡ s.objects c) × (s'.exists c ≡ s.exists c)

delete-IsReleased :
    (s : SendBufferPool) (b : ℕ)
    → IsValid s
    → s.exists b ≡ true
    → (s.objects b).is_allocated ≡ true
    → (s' : SendBufferPool) × (delete_buffer (unmarked s b) b ≡ some s') × IsReleased s b s'
delete-IsReleased s b v here used =
    let (k, done, owns) =
      delete_buffer-some (unmarked s b) b (unmarked-OwnsMemory s b v.owns) here in
    (
      deleted (unmarked s b) b k,
      done,
      record {
        valid = deleted-IsValid s b k v here used owns;
        given_up = ground arith;
        others = λ c other. (
          update-ne s.objects b c _ (λ same. other (sym same)),
          update-ne s.exists b c _ (λ same. other (sym same)),
        );
      },
    )

give_back-IsReleased :
    (s : SendBufferPool) (b : ℕ)
    → IsValid s
    → s.exists b ≡ true
    → (s.objects b).is_allocated ≡ true
    → (s' : SendBufferPool) × (give_back s b ≡ some s') × IsReleased s b s'
unfolding give_back reset
give_back-IsReleased s b v here used =
    let (s', done, r) = delete-IsReleased s b v here used in
    elim (Bool-cases (ltb (send_buffer_size * 2) (s.objects b).buffer.capacity)) [
      | inl large ↦ (s', rw large done, r)
      | inr small ↦ elim (Bool-cases (ltb (length s.pool) max_pooled)) [
        | inr full ↦ (s', rw (small, full) done, r)
        | inl room ↦ (
          kept s b,
          rw (small, room) refl,
          record {
            valid = kept-IsValid s b v here used (ground (arith, small)) (ltb→lt _ _ room);
            given_up = ground arith;
            others = λ c other. (update-ne s.objects b c _ (λ same. other (sym same)), refl);
          },
        )
      ]
    ]

-- `Release` of a buffer that has not been deleted, on a valid pool, leaves a valid pool (each
-- idle buffer in it once, at most 1024, none above twice the usual size, memory owned by one
-- buffer each), gives that buffer up and leaves every other as it was.
pub release_lem :
    (s : SendBufferPool) (b : ℕ)
    → IsValid s
    → s.exists b ≡ true
    → (s' : SendBufferPool) × (release s (some b) ≡ some s') × IsReleased s b s'
unfolding release
release_lem s b v here = elim (Bool-cases (s.objects b).is_allocated) [
  | inl used ↦
      let (s', done, r) = give_back-IsReleased s b v here used in (s', rw (here, used) done, r)
  | inr idle ↦ (
    s,
    rw (here, idle) refl,
    record { valid = v; given_up = ground (arith, idle); others = λ c other. (refl, refl) },
  )
]

-- On a valid pool a second `Release` of a buffer changes nothing if the first one kept the
-- buffer, and reads an object that has been deleted (no result) if the first one deleted it.
pub release-release_again :
    (s s' : SendBufferPool) (b : ℕ)
    → IsValid s
    → s.exists b ≡ true
    → release s (some b) ≡ some s'
    → release s' (some b) ≡ (if s'.exists b then some s' else none)
unfolding release
release-release_again s s' b v here done =
    let (s1, done1, r) = release_lem s b v here in
    let same : s1 ≡ s' = cc in
    let given_up =
      subst (λ t. (t.exists b && (t.objects b).is_allocated) ≡ false) same r.given_up in
    ground (arith, given_up)
