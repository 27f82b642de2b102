-- ===== src/Tests/SendPool.antt =====
-- CSendBufferPool of Source/Core/Common/Buffer.cpp at concrete inputs.
use mmorpg_server.Base.{[], refl, ℕ, none, some, arith, false, ◌≡◌, true, if◌then◌else◌}
use mmorpg_server.Common.SendBuffer.{empty_send_buffer}
use mmorpg_server.Common.SendBufferPool.{SendBufferPool, allocate, acquire, release}
use mmorpg_server.Common.SendBufferPool.Invariant.{IsValid, allocate-OwnsMemory, allocate-IsPooled}
use mmorpg_server.Common.SendBufferPool.Acquire.{IsGranted, acquire_lem}
use mmorpg_server.Common.SendBufferPool.Release.{IsReleased, release_lem, release-release_again}

abbrev no_buffers : SendBufferPool
no_buffers = record {
  pool = [];
  objects = λ _. record { buffer = empty_send_buffer; is_allocated = false };
  exists = λ _. false;
  next = 0;
  memory = record { next = 0; live = λ _. false; bytes = λ _ _. 0 };
}

no_buffers-IsValid : IsValid no_buffers
no_buffers-IsValid = record {
  owns = record {
    block = λ b here. absurd (ground (arith, here));
    unshared = λ b c k here. absurd (ground (arith, here));
    known = λ b here. absurd (ground (arith, here));
  };
  pooled = record {
    counted = λ b. refl;
    kept = λ b idle. absurd (ground (arith, idle));
    bounded = omega arith;
  };
}

-- One buffer, too large to be kept
abbrev one_large : SendBufferPool
one_large = (allocate no_buffers 200000).1

one_large-IsValid : IsValid one_large
one_large-IsValid = record {
  owns = allocate-OwnsMemory no_buffers 200000 no_buffers-IsValid.owns;
  pooled = allocate-IsPooled no_buffers 200000 no_buffers-IsValid.owns no_buffers-IsValid.pooled;
}

one_large_exists : one_large.exists 0 ≡ true
unfolding allocate
one_large_exists = refl

acquire_example :
    (b : ℕ) × (s : SendBufferPool) × (acquire no_buffers 100 ≡ some (b, s))
    × IsGranted no_buffers 100 b s
acquire_example = acquire_lem no_buffers 100 no_buffers-IsValid

release_example :
    (s : SendBufferPool) × (release one_large (some 0) ≡ some s) × IsReleased one_large 0 s
release_example = release_lem one_large 0 one_large-IsValid one_large_exists

abbrev after_release : SendBufferPool
after_release = (release_lem one_large 0 one_large-IsValid one_large_exists).0

release-release_again_example :
    release after_release (some 0) ≡ (if after_release.exists 0 then some after_release else none)
release-release_again_example =
    release-release_again one_large after_release 0 one_large-IsValid one_large_exists
      (release_lem one_large 0 one_large-IsValid one_large_exists).1
