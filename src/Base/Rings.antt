-- ===== src/Base/Rings.antt =====
-- Entries of a circular array: the index is reduced by the size of the array.
use Prim.Native.Nat.{ℕ, suc, ◌+◌, ◌-◌, ◌%◌, ◌<◌}
use mathlib.Core.Path.{◌≡◌, sym, ap, ap₂, ◌∙◌}
use mathlib.Core.List.{List, [], ◌∷◌, ◌++◌}
use native.Mathlib.Omega.{arith}
use mmorpg_server.Base.Arrays.{update, update_self, update-ne, slice, slice-add, slice_ext, mod-ne}

module _ {ℓ} {A : Type ℓ} (capacity : ℕ) where
  -- The `n` entries from index `i` on.
  abbrev pub ring : (ℕ → A) → ℕ → ℕ → List A
  ring buffer = slice (λ i. buffer (i % capacity))

  -- Writing just past the entries of a ring that is not full adds one at the end.
  pub ring-push :
      (buffer : ℕ → A) (head tail n : ℕ) (item : A)
      → tail ≡ head + n
      → n < capacity
      → ring (update buffer (tail % capacity) item) head (n + 1) ≡ ring buffer head n ++ item ∷ []
  ring-push buffer head tail n item e h =
      slice-add (λ i. update buffer (tail % capacity) item (i % capacity)) head n 1
      ∙ ap₂ ◌++◌
          (slice_ext (λ i. update buffer (tail % capacity) item (i % capacity))
            (λ i. buffer (i % capacity)) head head n
            λ k lt.
              update-ne buffer (tail % capacity) ((head + k) % capacity) item
                (λ c. mod-ne (head + k) tail capacity (omega arith) (omega arith) (sym c)))
          (ap (λ x. x ∷ [])
            (ap (λ t. update buffer (tail % capacity) item (t % capacity)) (sym e)
              ∙ update_self buffer (tail % capacity) item))

  -- The oldest entry stands first.
  pub ring-cons :
      (buffer : ℕ → A) (head tail : ℕ)
      → head < tail
      → ring buffer head (tail - head)
        ≡ buffer (head % capacity) ∷ ring buffer (head + 1) (tail - (head + 1))
  ring-cons buffer head tail h =
      let e : tail - head ≡ suc (tail - (head + 1)) = omega arith in ap (ring buffer head) e
