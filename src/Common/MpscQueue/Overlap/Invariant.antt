-- ===== src/Common/MpscQueue/Overlap/Invariant.antt =====
-- What the shared variables of an MPSCQueue and the locals of the threads in it have to do with
-- each other at any moment.
use mathlib.Core.Logic.{Lift}
use native.Mathlib.Decide.{ℕ_discrete}
use mmorpg_server.Base.{
  ℕ, none, some, arith, Bool, Option, ◌<◌, false, true, ◌≤◌, ◌+◌, ◌≡◌, ◌%◌, ◌⊎◌, slice, subst, ◌≢◌,
  update, sym, update_self, update-ne, refl, ◌∙◌, mod-ne, ap,
}
use mmorpg_server.Common.MpscQueue.Overlap.{
  System, Producer, idle, pushing, Stage, reserved, admitted, refused, written, Consumer, found,
  taken, cleared,
}

abbrev pub has_room : Stage → Bool
has_room reserved = false
has_room admitted = true
has_room refused = false
has_room written = true

abbrev pub is_written : Stage → Bool
is_written written = true
is_written _ = false

module _ {ℓ} {A : Type ℓ} where
  -- The flag at the head has been reset and the head not yet advanced.
  abbrev pub is_cleared : Consumer A → Bool
  is_cleared (cleared _) = true
  is_cleared _ = false

  abbrev pub has_found : Consumer A → Bool
  has_found found = true
  has_found (taken _) = true
  has_found _ = false

  abbrev pub in_hand : Consumer A → Option A
  in_hand (taken x) = some x
  in_hand (cleared x) = some x
  in_hand _ = none

  -- A thread that goes on inside its call with the same ticket still holds it.
  pub moved :
      (f : ℕ → Producer A) (p o : ℕ) (a b stage : Stage) (t u : ℕ) (x y : A)
      → f p ≡ pushing a t x
      → f o ≡ pushing stage u y
      → (stage' : Stage) × (z : A) × (update f p (pushing b t x) o ≡ pushing stage' u z)
  moved f p o a b stage t u x y e h = elim (ℕ_discrete p o) [
    | yes same ↦
        let q : pushing a t x ≡ pushing stage u y = sym e ∙ ap f same ∙ h in
        let k : t ≡ u = cc in
        (
          b,
          x,
          ap (update f p (pushing b t x)) (sym same)
              ∙ update_self f p (pushing b t x)
              ∙ ap (λ w. pushing b w x) k,
        )
    | no other ↦ (stage, y, update-ne f p o (pushing b t x) other ∙ h)
  ]

module _ {ℓ} {A : Type ℓ} {capacity : ℕ} where
  -- What a call of `Push` knows of its ticket.
  pub record Holds (s : System A capacity) (p : ℕ) (stage : Stage) (t : ℕ) (x : A) : Type ℓ where
    pub given : t < s.queue.tail
    pub pending : s.queue.head ≤ t
    pub unread : is_cleared s.consumer ≡ true → s.queue.head < t
    pub owned : s.owners t ≡ p
    pub logged : s.log t ≡ x
    pub unset : t < s.queue.head + capacity → s.queue.slots (t % capacity) ≡ false
    pub room : has_room stage ≡ true → t < s.queue.head + capacity
    pub stored : is_written stage ≡ true → s.queue.buffer (t % capacity) ≡ x

  abbrev pub InPlace : System A capacity → ℕ → Producer A → Type ℓ
  InPlace s p idle = Lift {0, ℓ} Unit
  InPlace s p (pushing stage t x) = Holds s p stage t x

  -- Whose turn it is to deal with the ticket `t`.
  abbrev pub Accounted : System A capacity → ℕ → Type ℓ
  Accounted s t =
      ((t < s.queue.head + capacity) × (s.queue.slots (t % capacity) ≡ true))
      ⊎ (((stage : Stage) × (x : A) × (s.producers (s.owners t) ≡ pushing stage t x))
          ⊎ ((is_cleared s.consumer ≡ true) × (t ≡ s.queue.head)))

  -- `n` bounds the tickets given out so far.
  pub record Inv (n : ℕ) (s : System A capacity) : Type ℓ where
    pub positive : 0 < capacity
    pub ordered : s.queue.head ≤ s.queue.tail
    pub counted : s.queue.tail ≤ n
    pub holds : (p : ℕ) → InPlace s p (s.producers p)
    pub vacant :
        (t : ℕ)
        → s.queue.tail ≤ t
        → t < s.queue.head + capacity
        → s.queue.slots (t % capacity) ≡ false
    pub filled :
        (t : ℕ)
        → s.queue.head ≤ t
        → t < s.queue.tail
        → t < s.queue.head + capacity
        → s.queue.slots (t % capacity) ≡ true
        → s.queue.buffer (t % capacity) ≡ s.log t
    pub accounted : (t : ℕ) → s.queue.head ≤ t → t < s.queue.tail → Accounted s t
    pub found_set : has_found s.consumer ≡ true → s.queue.slots (s.queue.head % capacity) ≡ true
    pub cleared_unset :
        is_cleared s.consumer ≡ true
        → (s.queue.slots (s.queue.head % capacity) ≡ false) × (s.queue.head < s.queue.tail)
    pub carried :
        (x : A)
        → in_hand s.consumer ≡ some x
        → (s.log s.queue.head ≡ x) × (s.queue.head < s.queue.tail)
    pub delivered : s.popped ≡ slice s.log 0 s.queue.head

  pub Holds-of :
      (s : System A capacity) (p : ℕ) (stage : Stage) (t : ℕ) (x : A)
      → InPlace s p (s.producers p)
      → s.producers p ≡ pushing stage t x
      → Holds s p stage t x
  Holds-of s p stage t x h e = subst (InPlace s p) e h

  -- What holds of a thread in one state holds of it in another if its call allows the change.
  pub InPlace-map :
      (s s' : System A capacity) (p : ℕ) (w : Producer A)
      → InPlace s p w
      → ((stage : Stage) (t : ℕ) (x : A)
          → w ≡ pushing stage t x
          → Holds s p stage t x
          → Holds s' p stage t x)
      → InPlace s' p w
  InPlace-map s s' p idle h k = h
  InPlace-map s s' p (pushing stage t x) h k = k stage t x refl h

  -- A step of the thread `p` keeps what every thread knows if it does so for `p`, in its new place,
  -- and for each other thread inside a call.
  pub InPlace-update :
      (s s' : System A capacity) (p : ℕ) (v : Producer A)
      → ((r : ℕ) → InPlace s r (s.producers r))
      → InPlace s' p v
      → ((r : ℕ) (stage : Stage) (t : ℕ) (x : A)
          → p ≢ r
          → s.producers r ≡ pushing stage t x
          → Holds s r stage t x
          → Holds s' r stage t x)
      → (r : ℕ) → InPlace s' r (update s.producers p v r)
  InPlace-update s s' p v h now rest r = elim (ℕ_discrete p r) [
    | yes same ↦
        subst (λ i. InPlace s' i (update s.producers p v i)) same
          (subst (InPlace s' p) (sym (update_self s.producers p v)) now)
    | no other ↦
        subst (InPlace s' r) (sym (update-ne s.producers p r v other))
          (InPlace-map s s' r (s.producers r) (h r) (λ stage t x e k. rest r stage t x other e k))
  ]

  -- Two threads inside `Push` never have the same ticket, nor the same place of the ring.
  pub ticket-ne :
      (s : System A capacity) (p r : ℕ) (a b : Stage) (t u : ℕ) (x y : A)
      → Holds s p a t x
      → Holds s r b u y
      → p ≢ r
      → t ≢ u
  ticket-ne s p r a b t u x y h k other same = other (sym h.owned ∙ ap s.owners same ∙ k.owned)

  pub slot-ne :
      (s : System A capacity) (p r : ℕ) (a b : Stage) (t u : ℕ) (x y : A)
      → Holds s p a t x
      → Holds s r b u y
      → p ≢ r
      → t < s.queue.head + capacity
      → u < s.queue.head + capacity
      → t % capacity ≢ u % capacity
  slot-ne s p r a b t u x y h k other lt lt' = grind (
    arith,
    ticket-ne s p r a b t u x y h k other,
    mod-ne t u capacity,
    mod-ne u t capacity,
    h.pending,
    k.pending,
  )
