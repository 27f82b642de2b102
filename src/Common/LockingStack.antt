-- ===== src/Common/LockingStack.antt =====
-- LockingStack of Source/Core/Common/Buffer.h. Each method runs between the acquire and the release
-- of its spin lock, so it is one step. The head of a list is the back of the vector `Container`.
use mmorpg_server.Base.{
  ℕ, Option, none, some, List, [], ◌∷◌, ◌++◌, if◌then◌else◌, ltb, length, take, drop,
}
use mathlib.Core.List.{reverse}

module _ {ℓ} {A : Type ℓ} where
  unfoldable pub push : List A → A → List A
  push container item = item ∷ container

  -- The last of `items` becomes the back.
  unfoldable pub push_batch : List A → List A → List A
  push_batch container [] = container
  push_batch container (x ∷ xs) = reverse (x ∷ xs) ++ container

  -- `actual_count` of the code
  unfoldable pub batch_count : ℕ → List A → ℕ
  batch_count count container =
      let available = length container in if ltb available count then available else count

  -- Moves up to `count` items, in their order, to the back of `out_dst`; returns how many, the new
  -- `out_dst` and the new container.
  unfoldable pub pop_batch : List A → List A → ℕ → ℕ × List A × List A
  unfolding batch_count
  pop_batch container out_dst count =
      if ltb 0 (length container)
      then (
        batch_count count container,
        take (batch_count count container) container ++ out_dst,
        drop (batch_count count container) container,
      )
      else (0, out_dst, container)

  unfoldable pub pop : List A → Option A × List A
  pop [] = (none, [])
  pop (x ∷ xs) = (some x, xs)
