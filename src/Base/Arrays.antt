-- ===== src/Base/Arrays.antt =====
-- A C array, or a heap of objects, as a function of the index.
use Prim.Native.Nat.{ℕ, zero, suc, ◌+◌, ◌%◌, ◌<◌}
use mathlib.Core.Path.{◌≡◌, refl, ap, ap₂, ◌∙◌}
use mathlib.Core.Logic.{◌≢◌}
use mathlib.Core.List.{List, [], ◌∷◌, ◌++◌}
use native.Mathlib.Nat.{div-add-mod, add-zero}
use native.Mathlib.Omega.{arith}
use mmorpg_server.Base.Conditions.{◌==◌, if◌then◌else◌}
use mmorpg_server.Base.Lists.{length}

module _ {ℓ} {A : Type ℓ} where
  -- `a[i] = v`
  abbrev pub update : (ℕ → A) → ℕ → A → ℕ → A
  update f i v j = if i == j then v else f j

  pub update_self : (f : ℕ → A) (i : ℕ) (v : A) → update f i v i ≡ v
  update_self f i v = ground arith

  pub update-ne : (f : ℕ → A) (i j : ℕ) (v : A) → i ≢ j → update f i v j ≡ f j
  update-ne f i j v h = ground arith

  -- `a[i], …, a[i + n - 1]`
  abbrev pub slice : (ℕ → A) → ℕ → ℕ → List A
  slice f i zero = []
  slice f i (suc n) = f i ∷ slice f (i + 1) n

  -- `memcpy(a + i, xs, sizeof xs)`
  abbrev pub copy_to : (ℕ → A) → ℕ → List A → ℕ → A
  copy_to f i [] = f
  copy_to f i (x ∷ xs) = update (copy_to f (i + 1) xs) i x

module _ {ℓ} {A : Type ℓ} where
  pub length-slice : (f : ℕ → A) (i n : ℕ) → length (slice f i n) ≡ n
  length-slice f i zero = refl
  length-slice f i (suc n) = ap suc (length-slice f (i + 1) n)

  pub slice-add : (f : ℕ → A) (i m n : ℕ) → slice f i (m + n) ≡ slice f i m ++ slice f (i + m) n
  slice-add f i zero n = let e : i + zero ≡ i = add-zero i in rw e (ap (slice f i) (omega arith))
  slice-add f i (suc m) n =
      let e : suc m + n ≡ suc (m + n) = omega arith in
      let k : i + suc m ≡ (i + 1) + m = omega arith in
      rw (e, k) (ap (λ t. f i ∷ t) (slice-add f (i + 1) m n))

  pub slice_ext :
      (f g : ℕ → A) (i j n : ℕ)
      → ((k : ℕ) → k < n → f (i + k) ≡ g (j + k))
      → slice f i n ≡ slice g j n
  slice_ext f g i j zero h = refl
  slice_ext f g i j (suc n) h = ap₂ ◌∷◌ first (slice_ext f g (i + 1) (j + 1) n rest)
    where
      first : f i ≡ g j
      first = ap f (omega arith) ∙ h 0 (omega arith) ∙ ap g (omega arith)

      rest : (k : ℕ) → k < n → f (i + 1 + k) ≡ g (j + 1 + k)
      rest k lt = ap f (omega arith) ∙ h (suc k) (omega arith) ∙ ap g (omega arith)

  pub copy_to_below : (f : ℕ → A) (i j : ℕ) (xs : List A) → j < i → copy_to f i xs j ≡ f j
  copy_to_below f i j [] h = refl
  copy_to_below f i j (x ∷ xs) h = ground (arith, copy_to_below f (i + 1) j xs (omega arith))

  pub slice-copy_to : (f : ℕ → A) (i : ℕ) (xs : List A) → slice (copy_to f i xs) i (length xs) ≡ xs
  slice-copy_to f i [] = refl
  slice-copy_to f i (x ∷ xs) = ap₂ ◌∷◌ (update_self (copy_to f (i + 1) xs) i x) (
      slice_ext (copy_to f i (x ∷ xs)) (copy_to f (i + 1) xs) (i + 1) (i + 1) (length xs)
        (λ k h. update-ne (copy_to f (i + 1) xs) i (i + 1 + k) x (omega arith))
      ∙ slice-copy_to f (i + 1) xs)

  -- What `copy_to` writes goes to the end of what stood below it.
  pub slice-copy_to_end :
      (f : ℕ → A) (i n : ℕ) (xs : List A)
      → slice (copy_to f (i + n) xs) i (n + length xs) ≡ slice f i n ++ xs
  slice-copy_to_end f i n xs =
      slice-add (copy_to f (i + n) xs) i n (length xs)
      ∙ ap₂ ◌++◌ (slice_ext _ f i i n (λ k h. copy_to_below f (i + n) (i + k) xs (omega arith)))
          (slice-copy_to f (i + n) xs)

-- Two indices less than the size of a ring apart do not share a slot.
pub mod-ne : (a b c : ℕ) → a < b → b < a + c → a % c ≢ b % c
mod-ne a b c p q e = absurd (grind (arith, div-add-mod a c, div-add-mod b c))
