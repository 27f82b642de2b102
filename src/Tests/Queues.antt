-- ===== src/Tests/Queues.antt =====
-- The queues of Source/Core/Common/LockFreeQueue.h at concrete inputs.
use mmorpg_server.Base.{[], ℕ, arith, List, false, ◌≡◌, ltb, refl, ◌∷◌, ◌+◌}
use mmorpg_server.Common.Fifo.{Op, puts, takes, run, replies}
use mmorpg_server.Common.MpscQueue.{MpscQueue}
use mmorpg_server.Common.MpscQueue.Refine.{
  mpsc_replies-run, pop_batch_lem, push_and_check_was_empty_lem,
}
use mmorpg_server.Common.MpscQueue.Refine as MpscRefine
use mmorpg_server.Common.SpscQueue.{SpscQueue}
use mmorpg_server.Common.SpscQueue.Refine.{spsc_replies-run}
use mmorpg_server.Common.SpscQueue.Refine as SpscRefine

-- Three pushes to a queue of two, and two pops
abbrev calls : List (Op ℕ)
calls = puts 7 ∷ puts 8 ∷ puts 9 ∷ takes ∷ takes ∷ []

abbrev mpsc : MpscQueue ℕ 2
mpsc = record { head = 0; tail = 0; slots = λ _. false; buffer = λ _. 0 }

mpsc-IsValid : MpscRefine.IsValid mpsc
mpsc-IsValid = record {
  ordered = omega arith;
  bounded = omega arith;
  unwrapped = omega arith;
  filled = λ i low high. absurd (omega (arith, low, high));
  vacant = λ i low high. refl;
  positive = omega arith;
}

abbrev spsc : SpscQueue ℕ 2
spsc = record { head = 0; tail = 0; buffer = λ _. 0 }

mpsc_replies-run_example : replies MpscRefine.implementation mpsc calls ≡ run 2 [] calls
mpsc_replies-run_example = mpsc_replies-run mpsc calls mpsc-IsValid (omega arith)

spsc_replies-run_example : replies SpscRefine.implementation spsc calls ≡ run 2 [] calls
spsc_replies-run_example =
    spsc_replies-run spsc calls
      (record { ordered = omega arith; bounded = omega arith; unwrapped = omega arith })
      (omega arith)

-- A queue of four places with the entries 10 and 11
abbrev two_entries : MpscQueue ℕ 4
two_entries = record { head = 0; tail = 2; slots = λ i. ltb i 2; buffer = λ i. 10 + i }

two_entries-IsValid : MpscRefine.IsValid two_entries
two_entries-IsValid = record {
  ordered = omega arith;
  bounded = omega arith;
  unwrapped = omega arith;
  filled = λ i low high. ground arith;
  vacant = λ i low high. ground arith;
  positive = omega arith;
}
