-- ===== src/Common/Fifo.antt =====
-- The contract of the two lock-free queues of Source/Core/Common/LockFreeQueue.h: a bounded
-- first-in first-out queue. A client may take any implementation of it as a parameter.
use mmorpg_server.Base.{
  refl, ℕ, List, Bool, true, false, if◌then◌else◌, Option, length, ltb, none, suc, ◌≡◌, ◌++◌, ◌∷◌,
  [], some, ap, ◌<◌, lt→ltb,
}

module _ {ℓ} {A : Type ℓ} where
  -- A full queue refuses the item.
  unfoldable pub put : ℕ → List A → A → Bool × List A
  put capacity xs item = if ltb (length xs) capacity then (true, xs ++ item ∷ []) else (false, xs)

  pub put-free :
      (capacity : ℕ) (xs : List A) (item : A)
      → length xs < capacity
      → put capacity xs item ≡ (true, xs ++ item ∷ [])
  unfolding put
  put-free capacity xs item h = rw (lt→ltb (length xs) capacity h) refl

  unfoldable pub take_first : List A → Option A × List A
  take_first [] = (none, [])
  take_first (x ∷ xs) = (some x, xs)

  -- What an outcome of `take_first` says of the entries.
  pub take_first-none : (xs : List A) {ys : List A} → (none, ys) ≡ take_first xs → xs ≡ []
  unfolding take_first
  take_first-none [] e = refl
  take_first-none (x ∷ xs) e = cc (ap (λ p. p.0) e)

  pub take_first-some :
      (xs : List A) {ys : List A} {x : A} → (some x, ys) ≡ take_first xs → xs ≡ x ∷ ys
  unfolding take_first
  take_first-some [] e = cc (ap (λ p. p.0) e)
  take_first-some (x ∷ xs) e = cc (ap (λ p. p.0) e, ap (λ p. p.1) e)

pub data Op {ℓ} (A : Type ℓ) : Type ℓ where
  puts : A → Op A
  takes : Op A

pub data Reply {ℓ} (A : Type ℓ) : Type ℓ where
  did_put : Bool → Reply A
  did_take : Option A → Reply A

-- The replies to a sequence of calls, by the contract.
unfoldable pub run {ℓ} : {A : Type ℓ} → ℕ → List A → List (Op A) → List (Reply A)
unfolding put take_first
run capacity xs [] = []
run capacity xs (puts a ∷ ops) =
    let (done, ys) = put capacity xs a in did_put done ∷ run capacity ys ops
run capacity xs (takes ∷ ops) = let (out, ys) = take_first xs in did_take out ∷ run capacity ys ops

-- An implementation. `IsValid n q` also says that `n` more pushes cannot wrap an index.
pub record Implementation {ℓ} (A : Type ℓ) (capacity : ℕ) : Type (ℓ + 1) where
  pub Queue : Type ℓ
  pub push : Queue → A → Bool × Queue
  pub pop : Queue → Option A × Queue
  pub contents : Queue → List A
  pub IsValid : ℕ → Queue → Type 0
  pub push_refines :
      (n : ℕ) (q : Queue) (a : A)
      → IsValid (suc n) q
      → (((push q a).0, contents (push q a).1) ≡ put capacity (contents q) a)
        × IsValid n (push q a).1
  pub pop_refines :
      (n : ℕ) (q : Queue)
      → IsValid (suc n) q
      → (((pop q).0, contents (pop q).1) ≡ take_first (contents q)) × IsValid n (pop q).1

module _ {ℓ} {A : Type ℓ} {capacity : ℕ} (impl : Implementation A capacity) where
  open impl use {Queue, push, pop, contents, IsValid, push_refines, pop_refines}

  unfoldable pub replies : Queue → List (Op A) → List (Reply A)
  replies q [] = []
  replies q (puts a ∷ ops) = let (done, q') = push q a in did_put done ∷ replies q' ops
  replies q (takes ∷ ops) = let (out, q') = pop q in did_take out ∷ replies q' ops

  -- No sequence of calls tells an implementation from the list of its entries.
  pub replies-run :
      (ops : List (Op A)) (q : Queue)
      → IsValid (length ops) q
      → replies q ops ≡ run capacity (contents q) ops
  unfolding replies run
  replies-run [] q v = refl
  replies-run (puts a ∷ ops) q v =
      let (e, v') = push_refines (length ops) q a v in rw (replies-run ops (push q a).1 v', ← e)
  replies-run (takes ∷ ops) q v =
      let (e, v') = pop_refines (length ops) q v in rw (replies-run ops (pop q).1 v', ← e)
